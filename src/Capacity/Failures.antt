-- ===== src/Capacity/Failures.antt =====
-- Failed polls of a provider.
use unified_ephemeral_runner.Common.{
  ℕ, String, ◌≡◌, sym, ap, ◌∙◌, subst, ◌<◌, ◌≢◌, true, false, some, arith, string_eq, nat_eq,
  pair_eq, get, get-put_self,
}
use unified_ephemeral_runner.Model.{Time, BackendName}
use unified_ephemeral_runner.Capacity.Bounds.{node_unavailable_blocks}
use unified_ephemeral_runner.Capacity.{
  CapacityStatus, Snapshot, Manager, effective_max_runners, in_failure_mode, stale_or_error,
  normalize_failure_mode, pass_through, Reading, success, failure, kept_status, polled, poll, set,
  with_source, no_status,
}

poll-get :
    (m : Manager) (name : BackendName) (r : Reading) (now : Time)
    → get (poll m name r now) name ≡ some (with_source (polled m name r now))
unfolding poll set polled
poll-get m name (success status) now =
    get-put_self m name (with_source (polled m name (success status) now))
poll-get m name (failure text) now =
    get-put_self m name (with_source (polled m name (failure text) now))

with_source_keeps :
    (s : Snapshot) → ((with_source s).status ≡ s.status) × ((with_source s).error ≡ s.error)
unfolding with_source
with_source_keeps s = ground arith

failed_status :
    (m : Manager) (name : BackendName) (text : String) (now : Time)
    → ((with_source (polled m name (failure text) now)).status ≡ kept_status (get m name))
      × ((with_source (polled m name (failure text) now)).error ≡ text)
unfolding polled
failed_status m name text now = with_source_keeps (polled m name (failure text) now)

after_success :
    (m : Manager) (name : BackendName) (status : CapacityStatus) (now : Time)
    → kept_status (get (poll m name (success status) now) name) ≡ status
unfolding kept_status polled with_source
after_success m name status now =
    rw (poll-get m name (success status) now, kept_status) (ground arith)

after_failure :
    (m : Manager) (name : BackendName) (text : String) (now : Time)
    → text ≢ ""
    → kept_status (get (poll m name (failure text) now) name) ≡ no_status
unfolding kept_status
after_failure m name text now some_text =
    let (kept, failed) = failed_status m name text now in
    let differs = string_eq.agrees_iff text "" in
    rw (poll-get m name (failure text) now, kept_status) (ground arith)

-- After one failed poll that follows a successful one, the reading of the successful poll is still
-- there: a node that it found unavailable keeps the backend out of use, in any failure mode.
pub failed_poll_keeps_node :
    (m : Manager) (name : BackendName) (status : CapacityStatus) (text : String) (t u : Time)
    (cfg_max active : ℕ) (mode : String)
    → status.node_unavailable ≢ ""
    → (effective_max_runners cfg_max active
        (get (poll (poll m name (success status) t) name (failure text) u) name)
        mode).available
      ≡ false
failed_poll_keeps_node m name status text t u cfg_max active mode down =
    let before = poll m name (success status) t in
    let (kept, failed) = failed_status before name text u in
    let same = ap (λ s. s.node_unavailable) (kept ∙ after_success m name status t) in
    rw (poll-get before name (failure text) u) (
      node_unavailable_blocks cfg_max active (with_source (polled before name (failure text) u))
        mode (subst (λ n. n ≢ "") (sym same) down))

-- After two failed polls the reading before them is gone: with room under the configured maximum
-- and a failure mode that passes through, the backend is available, whatever that reading was, so
-- also when it named an unavailable node.
pub second_failure_forgets_node :
    (m : Manager) (name : BackendName) (status : CapacityStatus) (first second : String)
    (t u v : Time) (cfg_max active : ℕ) (mode : String)
    → first ≢ ""
    → active < cfg_max
    → normalize_failure_mode mode ≡ pass_through
    → (effective_max_runners cfg_max active
        (get
          (poll
            (poll (poll m name (success status) t) name (failure first) u)
            name
            (failure second)
            v)
          name)
        mode).available
      ≡ true
unfolding effective_max_runners stale_or_error in_failure_mode
second_failure_forgets_node m name status first second t u v cfg_max active mode some_text room
      passes =
    let before = poll (poll m name (success status) t) name (failure first) u in
    let (kept, failed) = failed_status before name second v in
    let gone = kept ∙ after_failure (poll m name (success status) t) name first u some_text in
    rw (poll-get before name (failure second) v)
      (passes_through (with_source (polled before name (failure second) v)) gone)
  where
    passes_through :
        (s : Snapshot)
        → s.status ≡ no_status
        → (effective_max_runners cfg_max active (some s) mode).available ≡ true
    passes_through s e =
        let reachable : s.status.node_unavailable ≡ "" = ap (λ t. t.node_unavailable) e in
        let empty : s.status.max_runners ≡ 0 = ap (λ t. t.max_runners) e in
        let known = string_eq.agrees_iff s.status.node_unavailable "" in ground arith
