-- ===== src/Sqlite/Runs/Open.antt =====
-- Which runs ClaimProbe of internal/adapters/sqlitecompat/store.go may give to an agent.
use text.Mathlib.Text.{◌==◌ as str_eq}
use text.Mathlib.TextEquality.{eq_iff}
use text.Mathlib.TextPositions.{eq_refl}
use mathlib.Core.List.{Mem, mem-cons_self, mem-cons_of_mem}
use mathlib.Core.Path.{subst}
use xisnove.Prelude.{
  ◌≡◌, refl, sym, ap, ◌⊎◌, inl, inr, String, Bool, true, false, ◌&&◌, List, [], ◌∷◌, Option, none,
  some, any, Any, arith, Bool-cases,
}
use xisnove.Prelude.Int.{◌≤ℤ◌}
use xisnove.Domain.Health.{Time}
use xisnove.Domain.Agent.{AgentCapability}
use xisnove.Domain.Agent as capability
use xisnove.Domain.Monitor.{MonitorKind, http, tcp, dns, other}
use xisnove.Application.Records.{
  AgentRecord, ClaimRunParams, RunStatus, available, leased, resolved,
}
use xisnove.Sqlite.Tables.{Engine, RunRow, Db, find, is_null}
use xisnove.Sqlite.Tables.Laws.{find-holds}
use xisnove.Sqlite.Runs.{is_candidate, is_claimable, lease_expired, kind_matches, active_agent}

-- The kind of monitor that a capability is for.
abbrev pub kind_of : AgentCapability → MonitorKind
kind_of capability.http = http
kind_of capability.tcp = tcp
kind_of capability.dns = dns
kind_of (capability.other s) = other s

module _ (engine : Engine) (params : ClaimRunParams) where
  -- A run that nobody has leased, or whose lease has expired.
  abbrev pub IsFree : RunRow → Type 0
  IsFree r =
      (r.status ≡ available)
      ⊎ ((r.status ≡ leased)
          × ((t : Time) × (r.lease_expires_at ≡ some t)
              × (engine.julianday t ≤ℤ engine.julianday params.now)))

  -- A run that is free and due, at the agent's location, and of a kind that the request asks for.
  pub record IsOpen (a : AgentRecord) (r : RunRow) : Type 0 where
    pub location : r.location_id ≡ a.agent.location_id
    pub free : IsFree r
    pub due : engine.julianday r.scheduled_for ≤ℤ engine.julianday params.now
    pub asked : Any (λ c. r.probe_kind ≡ kind_of c) params.capabilities

kind_matches-kind_of :
    (k : MonitorKind) (c : AgentCapability) → kind_matches k c ≡ true → k ≡ kind_of c
kind_matches-kind_of http capability.http h = refl
kind_matches-kind_of tcp capability.tcp h = refl
kind_matches-kind_of dns capability.dns h = refl
kind_matches-kind_of (other s) (capability.other t) h = ap other ((eq_iff s t).0 h)
kind_matches-kind_of k c h = absurd (ground (arith, h))

kind_of-kind_matches : (c : AgentCapability) → kind_matches (kind_of c) c ≡ true
kind_of-kind_matches capability.http = refl
kind_of-kind_matches capability.tcp = refl
kind_of-kind_matches capability.dns = refl
kind_of-kind_matches (capability.other s) = eq_refl s

kind_matches-eq : (k : MonitorKind) (c : AgentCapability) → k ≡ kind_of c → kind_matches k c ≡ true
kind_matches-eq k c e = subst (λ x. kind_matches x c ≡ true) (sym e) (kind_of-kind_matches c)

any-Any :
    (k : MonitorKind) (cs : List AgentCapability)
    → any (kind_matches k) cs ≡ true
    → Any (λ c. k ≡ kind_of c) cs
any-Any k [] h = ground (arith, h)
any-Any k (c ∷ cs) h = elim (Bool-cases (kind_matches k c)) [
  | inl e ↦ inl (kind_matches-kind_of k c e)
  | inr e ↦ inr (any-Any k cs (ground (arith, h, e)))
]

Any-any :
    (k : MonitorKind) (cs : List AgentCapability)
    → Any (λ c. k ≡ kind_of c) cs
    → any (kind_matches k) cs ≡ true
Any-any k [] h = absurd h
Any-any k (c ∷ cs) (inl e) = ground (arith, kind_matches-eq k c e)
Any-any k (c ∷ cs) (inr m) = ground (arith, Any-any k cs m)

module _ (engine : Engine) (params : ClaimRunParams) where
  free_of :
      (now : Time) (status : RunStatus) (expires : Option Time)
      → (elim status [
        | available ↦ true
        | leased ↦ lease_expired engine now expires
        | resolved ↦ false
      ])
        ≡ true
      → (status ≡ available)
        ⊎ ((status ≡ leased)
            × ((t : Time) × (expires ≡ some t) × (engine.julianday t ≤ℤ engine.julianday now)))
  free_of now available expires h = inl refl
  free_of now leased none h = absurd (ground (arith, h))
  free_of now leased (some t) h = inr (refl, (t, refl, ground (arith, h)))
  free_of now resolved expires h = absurd (ground (arith, h))

  free_back :
      (now : Time) (status : RunStatus) (expires : Option Time)
      → (status ≡ available)
        ⊎ ((status ≡ leased)
            × ((t : Time) × (expires ≡ some t) × (engine.julianday t ≤ℤ engine.julianday now)))
      → (elim status [
        | available ↦ true
        | leased ↦ lease_expired engine now expires
        | resolved ↦ false
      ])
        ≡ true
  free_back now available expires h = refl
  free_back now leased none h = ground (arith, h)
  free_back now leased (some t) h = ground (arith, h)
  free_back now resolved expires h = ground (arith, h)

  is_claimable-IsFree :
      (r : RunRow) → is_claimable engine params.now r ≡ true → IsFree engine params r
  is_claimable-IsFree r h = free_of params.now r.status r.lease_expires_at h

  IsFree-is_claimable :
      (r : RunRow) → IsFree engine params r → is_claimable engine params.now r ≡ true
  IsFree-is_claimable r h = free_back params.now r.status r.lease_expires_at h

  -- The WHERE clause holds of the runs that are open, and of no others.
  pub is_candidate-IsOpen :
      (a : AgentRecord) (r : RunRow)
      → is_candidate engine params a r ≡ true
      → IsOpen engine params a r
  is_candidate-IsOpen a r h = record {
    location = (eq_iff r.location_id a.agent.location_id).0 (ground (arith, h));
    free = is_claimable-IsFree r (ground (arith, h));
    due = ground (arith, h);
    asked = any-Any r.probe_kind params.capabilities (ground (arith, h));
  }

  pub IsOpen-is_candidate :
      (a : AgentRecord) (r : RunRow)
      → IsOpen engine params a r
      → is_candidate engine params a r ≡ true
  IsOpen-is_candidate a r o =
      let at = (eq_iff r.location_id a.agent.location_id).1 o.location in
      let free = IsFree-is_claimable r o.free in
      let asked = Any-any r.probe_kind params.capabilities o.asked in
      let due = o.due in ground (arith, at, free, asked, due)

-- An agent with the identifier that is not revoked.
pub record IsActiveAgent (id : String) (db : Db) (a : AgentRecord) : Type 0 where
  pub known : Mem a db.agents
  pub named : a.agent.id ≡ id
  pub unrevoked : a.agent.revoked_at ≡ none

find-Mem : {A : Type 0} (p : A → Bool) (rows : List A) (r : A) → find p rows ≡ some r → Mem r rows
unfolding find
find-Mem p [] r h = absurd (ground (arith, h))
find-Mem p (s ∷ rows) r h = elim (Bool-cases (p s)) [
  | inl e ↦ subst (λ x. Mem x (s ∷ rows)) (ground (arith, h, e)) mem-cons_self
  | inr e ↦ mem-cons_of_mem s (find-Mem p rows r (ground (arith, h, e)))
]

pub active_agent-IsActiveAgent :
    (engine : Engine) (id : String) (db : Db) (a : AgentRecord)
    → active_agent engine id db ≡ some a
    → IsActiveAgent id db a
active_agent-IsActiveAgent engine id db a h =
    let found =
      find-holds (λ (x : AgentRecord). str_eq x.agent.id id && is_null x.agent.revoked_at) db.agents
        a h in
    record {
      known = find-Mem _ db.agents a h;
      named = (eq_iff a.agent.id id).0 (ground (arith, found));
      unrevoked = ground (arith, found);
    }
