-- ===== src/Monitoring/Resolution.antt =====
-- X user ids of the sources (`resolve_source_user_ids` of apps/monitoring/services.py).
use quota_radar.Prelude.{
  ℕ, String, Bool, not, Option, none, some, List, [], ◌∷◌, ◌++◌, map, if◌then◌else◌, nonempty,
  filter_by, get_item,
}
use quota_radar.Table.{at_pk}
use quota_radar.Action.{pure, atomic, ◌>>=◌, ◌>>◌}
use quota_radar.Models.Sources.{Source}
use quota_radar.Models.World.{Do}
use quota_radar.Advertising.Queries.{lift}
use quota_radar.Monitoring.XUsers.{Mapping, lookup_users}
use quota_radar.Monitoring.Preparation.{Outside}
use quota_radar.Monitoring.Ingestion.{change_sources}

pub record ResolutionResult : Type 0 where
  pub resolved_source_ids : List ℕ
  pub unresolved_source_ids : List ℕ

abbrev pub has_user_id : ℕ × Source → Bool
has_user_id (id, s) = nonempty s.x_user_id

abbrev pub lacks_user_id : ℕ × Source → Bool
lacks_user_id (id, s) = not (nonempty s.x_user_id)

abbrev pub ids : List (ℕ × Source) → List ℕ
ids = map (λ (r : ℕ × Source). r.0)

abbrev pub resolved_row : ℕ → String → Source → Source
resolved_row now user_id s = record s {
  x_user_id = user_id;
  last_checked_at = some now;
  last_error = "";
}

abbrev pub unresolved_row : ℕ → Source → Source
unresolved_row now s = record s {
  last_checked_at = some now;
  last_error = "X user was not returned by the user lookup endpoint.";
}

abbrev truthy_text : Option String → String
truthy_text none = ""
truthy_text (some s) = s

abbrev with_resolved : ℕ → ResolutionResult → ResolutionResult
with_resolved id r = record r { resolved_source_ids = id ∷ r.resolved_source_ids }

abbrev with_unresolved : ℕ → ResolutionResult → ResolutionResult
with_unresolved id r = record r { unresolved_source_ids = id ∷ r.unresolved_source_ids }

module _ (outside : Outside) (now : ℕ) where
  unfoldable pub resolve_each : Mapping → List (ℕ × Source) → Do ResolutionResult
  resolve_each mapping [] = pure (record { resolved_source_ids = []; unresolved_source_ids = [] })
  resolve_each mapping ((id, s) ∷ sources) =
      let user_id = truthy_text (get_item (outside.casefold s.username) mapping) in
      let row = if nonempty user_id then resolved_row now user_id else unresolved_row now in
      let counted = if nonempty user_id then with_resolved id else with_unresolved id in
      do change_sources (at_pk id row); rest ← resolve_each mapping sources; pure (counted rest)

  abbrev pub resolve_missing : List (ℕ × Source) → List (ℕ × Source) → Do ResolutionResult
  resolve_missing sources [] =
      pure (record { resolved_source_ids = ids sources; unresolved_source_ids = [] })
  resolve_missing sources unresolved = do
    mapping ← lift (
        lookup_users outside.casefold outside.serve
          (map (λ (r : ℕ × Source). r.1.username) unresolved))
    result ← atomic (resolve_each mapping unresolved)
    pure (record result {
      resolved_source_ids = ids (filter_by has_user_id sources) ++ result.resolved_source_ids;
    })

  unfoldable pub resolve_source_user_ids : List (ℕ × Source) → Do ResolutionResult
  resolve_source_user_ids sources = resolve_missing sources (filter_by lacks_user_id sources)
