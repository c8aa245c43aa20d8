-- ===== src/Lib.antt =====
-- Verification library of QuotaRadar, which reads announcements of quota resets on X, has an LLM classify
-- them, and delivers alerts to Telegram, with advertising below the alerts of a channel.
--
-- The program is Django models and Celery tasks on one database. The library models the database as a
-- record of tables (Models/World, Table), and code that changes it as actions (Action): functions
-- from a state to a result or an exception, with the state after it. `transaction.atomic` gives the old
-- state back where its block raises; other writes stay. A task's run is one sequence of actions. Workers
-- that run at the same time are not interleaved, beyond what a lock that is not acquired and the checks
-- before each update cover.
--
-- What models what:
--   Models/*                   the rows and enumerations of apps/*/models.py
--   Table, Table/Keys, Order   query sets: get, filter, first, count, order_by, create and update
--   Action, Keeps, Gives,      actions; rules for their invariants, postconditions, and for actions
--   Returns                    that never raise
--   Json, Text                 JSON values, and Python's operations on texts
--   Advertising/Queries        the rows that apps/advertising/services.py locks, reads and changes
--   Advertising/Reservation    prepare_delivery: reserve a slot of a campaign and freeze the request
--   Advertising/Sending        begin_send, mark_uncertain, unconfirmed_send, release, retry_reserved,
--                              confirm_placement
--   Advertising/Formatting     apps/advertising/formatting.py
--   Advertising/Capacity,      what campaigns have bought, and that each operation stays within it
--   Slots, Offers
--   Telegram/State             apps/telegram/delivery_state.py
--   Telegram/Formatting        apps/telegram/formatting.py
--   Telegram/Loading,          apps/telegram/tasks.py and task_support.py: deliver_analysis with
--   Conclusion, Task           everything that it calls
--   Telegram/Freshness, Retry  apps/telegram/freshness.py, and the back-off of apps/monitoring/retries.py,
--                              which the Telegram and analysis tasks repeat
--   Telegram/Frame, Stands,    theorems on the delivery task
--   SentStays, Capacity,
--   Requests, OneRequest
--   Telegram/Countdown, Length  theorems on the back-off and on Telegram's limit of 4096 units
--   Telegram/Fanout, Fanouts   apps/telegram/services.py: queue_analysis_deliveries, and its theorem
--   Telegram/Requeue,          apps/telegram/services.py: requeue_failed_deliveries, and its theorems
--   RequeueCounts
--   Telegram/Subscriptions,    apps/telegram/subscriptions.py, with DeliveryTarget.clean and save of
--   SubscriptionStart, Status  apps/telegram/models.py, and their theorems
--   Telegram/Client, Answers   apps/telegram/client.py: send_message, and its theorem
--   Dispatch, Dispatch/Counts  the Celery broker, and loops that count what they dispatch
--   Monitoring/Routing         apps/sources/routing.py
--   Monitoring/Dispatch,       apps/monitoring/dispatch.py, and its theorems
--   DispatchCounts
--   Monitoring/Recovery,       apps/monitoring/recovery.py, and its theorem
--   RecoveryReturns
--   Monitoring/XApi, XUsers,   apps/monitoring/x_api.py: _get_json, lookup_users, iter_user_posts
--   XTimeline
--   Monitoring/Normalization,  apps/monitoring/normalization.py, normalization_text.py,
--   PostText, Replies          reply_context.py
--   Monitoring/PostIds,        apps/monitoring/services.py: the order of post ids, prepare_source_posts,
--   Preparation, Ingestion,    persist_source_posts, ingest_source_posts, resolve_source_user_ids
--   Resolution
--   Monitoring/Polling,        apps/monitoring/tasks.py, retries.py and x_errors.py: poll_source,
--   PollingSchedule            poll_sources
--   Monitoring/Backfill        apps/monitoring/backfill.py and backfill_tasks.py
--   Monitoring/XPaging,        theorems on the timeline, the stored posts, the cursors, and on polls and
--   XPagingEnds, PostStore,    imports as a whole
--   Persistence, PostIdOrder,
--   Cursor, PostsStand,
--   PollFailure and *Keeps
--   Analysis/Saving,           apps/analysis/services.py with Analysis.clean, and its theorem
--   SuccessStays
--   Advertising/Budget, Room   apps/advertising/budget.py, and its lemmas
--   Analysis/Signals           apps/analysis/reset_signals.py, series_reset.py, and the keywords of
--                              fallback.py
--   Analysis/Quality           apps/analysis/quality.py, reassessment.py and the counter of availability.py
--   Analysis/Failures, Task    apps/analysis/failures.py, fallback.py, possible_reset.py, and tasks.py:
--                              analyze_post
--   Analysis/ResultStays,      theorems on the analysis task
--   TaskKeeps, Review, Approval
--   News/Budget, BudgetBounds, apps/news/budget.py: reserve and settle, and their theorems
--   Settlement, SettledOnce
--   News/Receipts, Delivered,  apps/news/receipts.py: parse_receipt, and its theorems
--   Unsent
--   Tests                      concrete states at which the theorems are applied
--
-- Parameters stand for what is outside: the broker (which messages it accepts), the time zone
-- database, the rendering of campaign markup, regular expressions and the Unicode tables behind
-- the `str.isdigit` of a chat ID, the collation of the database, and for each run its clock readings, its lock and the
-- answers of Telegram or the LLM. X is a function from requests to answers, which says all there is to
-- say of one run, since no two requests of a run are the same. Times are seconds on the native natural
-- numbers. Loops run over the rows of a query and use no fuel, but for the pages of a timeline: these go on as long as the
-- server gives new pagination tokens, and a server with n tokens is read to the end with fuel n + 1.
--
-- Not modelled: log lines, the texts and task ids of monitoring events, `updated_at`, limits on the
-- length of columns, and a validation that runs again on a row that has been validated before. In the
-- payloads of X, a value of another type than X documents at the keys of entities, references, media and
-- authors counts as a missing one. In ids, cursors and numerals only ASCII digits are digits, where Python
-- also knows those of other scripts. The Redis counter of LLM failures does not expire within a run. The
-- LLM client, the markup parser, news beyond its X budget and receipts, secrets, configuration, the bot's loop, the admin pages and the
-- dashboard are left out.
pub mod News
pub mod Prelude
pub mod Table
pub mod Action
pub mod Json
pub mod Text
pub mod Models
pub mod Advertising
pub mod Dispatch
pub mod Telegram
pub mod Monitoring
pub mod Analysis
pub mod Tests
