-- ===== src/Store/Leader.antt =====
-- Lease-based leadership (TryAcquireLeadership, ReleaseLeadership).
use unified_ephemeral_runner.Common.{
  String, ◌≡◌, refl, ◌+◌, ◌≤◌, ◌<◌, ◌≢◌, ◌↔◌, ◌⊎◌, inl, inr, Bool, true, false, none, some, List,
  [], ◌∷◌, arith, string_eq, nat_eq, pair_eq, get, Option-cases, get-put_self,
}
use unified_ephemeral_runner.Model.{Time, Duration}
use unified_ephemeral_runner.Store.{Memory, LeaderLease, try_acquire_leadership, release_leadership}

-- What a replica does with the lease of one name, and when.
pub data LeaderCall : Type 0 where
  acquires : String → Duration → Time → LeaderCall
  releases : String → LeaderCall

-- The results of the calls, oldest first; a release returns nothing.
pub calls : Memory → String → List LeaderCall → Memory × List Bool
calls m name [] = (m, [])
calls m name (acquires identity ttl now ∷ rest) =
    let (m', won) = try_acquire_leadership m name identity ttl now in
    let (m'', results) = calls m' name rest in (m'', won ∷ results)
calls m name (releases identity ∷ rest) = calls (release_leadership m name identity) name rest

-- Calls of other replicas, all before a time.
abbrev pub ByOthersBefore : String → Time → List LeaderCall → Type 0
ByOthersBefore identity end [] = Unit
ByOthersBefore identity end (acquires other ttl now ∷ rest) =
    (other ≢ identity) × (now < end) × ByOthersBefore identity end rest
ByOthersBefore identity end (releases other ∷ rest) =
    (other ≢ identity) × ByOthersBefore identity end rest

abbrev pub AllFalse : List Bool → Type 0
AllFalse [] = Unit
AllFalse (b ∷ bs) = (b ≡ false) × AllFalse bs

abbrev HeldBy : Memory → String → LeaderLease → Type 0
HeldBy m name lease = get m.leader name ≡ some lease

calls_held :
    (m : Memory) (name : String) (lease : LeaderLease) (cs : List LeaderCall)
    → HeldBy m name lease
    → ByOthersBefore lease.holder lease.expires_at cs
    → AllFalse (calls m name cs).1 × ((calls m name cs).0 ≡ m)
unfolding calls try_acquire_leadership release_leadership
calls_held m name lease [] h b = (tt, refl)
calls_held m name lease (acquires other ttl now ∷ rest) h b =
    ground (arith, string_eq.agrees_iff lease.holder other, calls_held m name lease rest h b.2)
calls_held m name lease (releases other ∷ rest) h b =
    ground (arith, string_eq.agrees_iff lease.holder other, calls_held m name lease rest h b.1)

won_lease :
    (m : Memory) (name identity : String) (ttl : Duration) (now : Time)
    → (try_acquire_leadership m name identity ttl now).1 ≡ true
    → 0 < ttl
    → HeldBy
        (try_acquire_leadership m name identity ttl now).0
        name
        (record { holder = identity; expires_at = now + ttl })
unfolding try_acquire_leadership
won_lease m name identity ttl now won pos =
    ground
      (arith, get-put_self m.leader name (record { holder = identity; expires_at = now + ttl }))

-- Once a replica has won the lease, no other replica wins it before the lease ends, whatever the
-- other replicas call in between: all their attempts fail, and their releases change nothing.
pub leadership_exclusive :
    (m : Memory) (name identity : String) (ttl : Duration) (now : Time) (cs : List LeaderCall)
    → (try_acquire_leadership m name identity ttl now).1 ≡ true
    → 0 < ttl
    → ByOthersBefore identity (now + ttl) cs
    → let m' = (try_acquire_leadership m name identity ttl now).0 in
      AllFalse (calls m' name cs).1 × ((calls m' name cs).0 ≡ m')
leadership_exclusive m name identity ttl now cs won pos others =
    calls_held _ name (record { holder = identity; expires_at = now + ttl }) cs
      (won_lease m name identity ttl now won pos) others

-- The holder can always renew, and anyone can take a lease that is not held or has ended.
pub leadership_available :
    (m : Memory) (name identity : String) (ttl : Duration) (now : Time)
    → (try_acquire_leadership m name identity ttl now).1 ≡ true ↔ (
        (get m.leader name ≡ none)
        ⊎ ((lease : LeaderLease) × (get m.leader name ≡ some lease)
            × ((lease.holder ≡ identity) ⊎ (lease.expires_at ≤ now))))
unfolding try_acquire_leadership
leadership_available m name identity ttl now = elim (Option-cases (get m.leader name)) [
  | inl free ↦ rw (free, try_acquire_leadership) (ground arith)
  | inr (lease, held) ↦
      rw (held, try_acquire_leadership) (ground (arith, string_eq.agrees_iff lease.holder identity))
]
