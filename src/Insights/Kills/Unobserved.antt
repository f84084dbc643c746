-- ===== src/Insights/Kills/Unobserved.antt =====
-- Which session is killed: `session_fingerprint` and `kill_session` together.
use inferspect.Prelude.{ℕ, ◌≡◌, ap, sym, ◌∙◌, String, Option, some, List, [], ◌∷◌}
use inferspect.Insights.Anchor.{Python}
use inferspect.Insights.Anchor.Body.{Json}
use inferspect.Insights.Metrics.Queries.{Query}
use inferspect.Insights.Repository.{
  session_fingerprint, or_fallback, first_row, direct_query, fallback_query,
}
use inferspect.Insights.Kills.{Environment, SessionRow, Outcome, Effect, kill_session}

module _ (env : Environment) (py : Python) (json : Json) (run : Query → List SessionRow) where
  -- `kill_session`, from the session's id.
  unfoldable pub kill_by_id : String → String → Option String → String → ℕ → Outcome × List Effect
  kill_by_id session_id operator_id client reason ttl =
      kill_session env py json (session_fingerprint run session_id client) operator_id client reason
        ttl

  -- A session with captured rows is killed by the latest of them.
  pub kill_by_id-own :
      (session_id operator_id : String) (client : Option String) (reason : String) (ttl : ℕ)
      (row : SessionRow) (rows : List SessionRow)
      → run (direct_query session_id client) ≡ row ∷ rows
      → kill_by_id session_id operator_id client reason ttl
        ≡ kill_session env py json (some row) operator_id client reason ttl
  unfolding kill_by_id session_fingerprint
  kill_by_id-own session_id operator_id client reason ttl row rows found =
      ap
        (λ found_rows.
          kill_session env py json (or_fallback run client found_rows) operator_id client reason
            ttl)
        found

  -- Where no row of a session was captured and the last capture of the tenant belongs to another session,
  -- the kill of the first has the outcome and the effects of the kill of the other.
  pub kill_by_id-other :
      (session_id other operator_id : String) (client : Option String) (reason : String) (ttl : ℕ)
      (row : SessionRow) (rows later : List SessionRow)
      → run (direct_query session_id client) ≡ []
      → run (fallback_query client) ≡ row ∷ later
      → run (direct_query other client) ≡ row ∷ rows
      → kill_by_id session_id operator_id client reason ttl
        ≡ kill_by_id other operator_id client reason ttl
  unfolding kill_by_id session_fingerprint
  kill_by_id-other session_id other operator_id client reason ttl row rows later missing captured
        found =
      let kill =
        λ (r : Option SessionRow). kill_session env py json r operator_id client reason ttl in
      ap (λ none_found. kill (or_fallback run client none_found)) missing
      ∙ ap (λ last. kill (first_row last)) captured
      ∙ sym (kill_by_id-own other operator_id client reason ttl row rows found)
