-- ===== src/Store/Transitions/Status.antt =====
-- The status machine: which moves an accepted write makes, and which statuses a record can reach.
use mathlib.Core.List.{Memᴰ}
use mathlib.Core.List.Memᴰ.{head, tail}
use direct_trade_protocol.Prelude.{
  ◌≡◌, refl, sym, ap, Bool, true, not, ◌&&◌, Option, none, some, List, [], ◌∷◌, Text, ===_iff, ok,
  demand, >>=-elim, demand-eq-ok, refuse-eq-ok, arith, includes, any, keep, ◌⊎◌, inl, inr,
  Bool-cases, and-true,
}
use direct_trade_protocol.Canonical.{Members}
use direct_trade_protocol.Store.Transitions.{
  PartyContext, Transition, Transitions, TypeInfo, is_set, some_of, starts, status_of, is_status,
  same_status, is_move, allowed, revisers, wrong_mover, wrong_reviser, wrong_start, wrong_creator,
  check_revision, check_move, check_supersede, check_genesis, check_start, check_lock,
  check_role_continuity, check_transition, roles_of, check_write,
}
use direct_trade_protocol.Store.Transitions.Roles.{Later, now, superseded}

-- A listed transition between the two statuses, by a role that the writer holds.
pub record Moves (moves : List Transition) (prev next : Option Text) (roles : List Text)
    : Type 0 where
  pub move : Transition
  pub listed : Memᴰ move moves
  pub from : prev ≡ some move.from
  pub to : next ≡ some move.to
  pub by_role : allowed move.by roles ≡ true

-- The two ways of an accepted supersede: a listed move, or a revision in the same status.
abbrev pub Step : TypeInfo → Transitions → Option Text → Option Text → List Text → Type 0
Step info t prev next roles =
    Moves t.transitions prev next roles
    ⊎ ((prev ≡ next) × (allowed (revisers info.revision_by) roles ≡ true))

is_status-eq : (o : Option Text) (t : Text) → is_status o t ≡ true → o ≡ some t
is_status-eq none t h = cc
is_status-eq (some s) t h = ap some (sym ((===_iff t s).0 h))

same_status-eq : (o p : Option Text) → same_status o p ≡ true → o ≡ p
same_status-eq none none h = refl
same_status-eq (some s) (some t) h = ap some ((===_iff s t).0 h)
same_status-eq none (some t) h = cc
same_status-eq (some s) none h = cc

any-keep :
    (p q : Transition → Bool) (l : List Transition)
    → any q (keep p l) ≡ true
    → (tr : Transition) × Memᴰ tr l × (p tr ≡ true) × (q tr ≡ true)
any-keep p q [] h = cc
any-keep p q (x ∷ l) h =
    let below : any q (keep p l) ≡ true
        → (tr : Transition) × Memᴰ tr (x ∷ l) × (p tr ≡ true) × (q tr ≡ true) =
      λ k. let (tr, m, pt, qt) = any-keep p q l k in (tr, tail m, pt, qt) in
    elim (Bool-cases (p x)) [
      | inr out ↦ below (ground arith)
      | inl kept ↦ elim (Bool-cases (q x)) [
        | inl good ↦ (x, head refl, kept, good)
        | inr bad ↦ below (ground arith)
      ]
    ]

found-Moves :
    (moves : List Transition) (prev next : Option Text) (roles : List Text)
    → any (λ (tr : Transition). allowed tr.by roles) (keep (is_move prev next) moves) ≡ true
    → Moves moves prev next roles
unfolding is_move
found-Moves moves prev next roles h =
    let (tr, m, moved, by) =
      any-keep (is_move prev next) (λ (tr : Transition). allowed tr.by roles) moves h in
    let both = and-true (is_status prev tr.from) (is_status next tr.to) moved in
    record {
      move = tr;
      listed = m;
      from = is_status-eq prev tr.from both.0;
      to = is_status-eq next tr.to both.1;
      by_role = by;
    }

check_revision-eq-ok :
    (info : TypeInfo) (prev next : Option Text) (roles : List Text)
    → check_revision info prev next roles ≡ ok tt
    → (prev ≡ next) × (allowed (revisers info.revision_by) roles ≡ true)
unfolding check_revision
check_revision-eq-ok info prev next roles h = elim (Bool-cases (same_status prev next)) [
  | inl same ↦ (
    same_status-eq prev next same,
    demand-eq-ok (allowed (revisers info.revision_by) roles) wrong_reviser (rw same at h),
  )
  | inr other ↦ absurd (cc (h, other))
]

check_move-Step :
    (info : TypeInfo) (t : Transitions) (prev next : Option Text) (roles : List Text)
    → check_move info t.transitions prev next roles ≡ ok tt
    → Step info t prev next roles
unfolding check_move
check_move-Step info t prev next roles h =
    let found = keep (is_move prev next) t.transitions in
    elim (Bool-cases (some_of found)) [
      | inl listed ↦ inl (
          found-Moves t.transitions prev next roles (
            demand-eq-ok (any (λ (tr : Transition). allowed tr.by roles) found) wrong_mover
              (rw listed at h)))
      | inr unlisted ↦ inr (check_revision-eq-ok info prev next roles (rw unlisted at h))
    ]

-- An accepted supersede of a record with a status makes a listed move, by a writer with one of the
-- roles listed for it under the record that is superseded, or leaves the status and is made by a
-- writer with one of the roles for revisions.
pub check_write-Step :
    (info : TypeInfo) (t : Transitions) (prev new : Members) (party : PartyContext)
    → check_write info (some prev) new party ≡ ok tt
    → info.transitions ≡ some t
    → is_set t.status_field ≡ true
    → Step info t (status_of info prev) (status_of info new) (roles_of info prev party)
unfolding check_write check_transition check_supersede
check_write-Step info t prev new party h machine set =
    >>=-elim (check_role_continuity info (some prev) new party) _ h λ _ _ h1.
      >>=-elim (check_lock info prev new) _ h1 λ _ _ h2.
        check_move-Step info t (status_of info prev) (status_of info new) (roles_of info prev party)
          (rw (machine, set) at h2)

-- The statuses that listed transitions lead to.
pub data Leads (moves : List Transition) : Option Text → Option Text → Type 0 where
  stay : {a : Option Text} → Leads moves a a
  go :
      {a b : Option Text} (move : Transition)
      → Memᴰ move moves
      → b ≡ some move.from
      → Leads moves a b
      → Leads moves a (some move.to)

lead :
    (info : TypeInfo) (t : Transitions) {a prev next : Option Text} (roles : List Text)
    → Leads t.transitions a prev
    → Step info t prev next roles
    → Leads t.transitions a next
lead info t roles l (inl moved) = rw moved.to (Leads.go moved.move moved.listed moved.from l)
lead info t roles l (inr (same, by)) = rw (← same) l

Later-Leads :
    (info : TypeInfo) (t : Transitions) {b b' : Members}
    → Later info b b'
    → info.transitions ≡ some t
    → is_set t.status_field ≡ true
    → Leads t.transitions (status_of info b) (status_of info b')
Later-Leads info t now machine set = Leads.stay
Later-Leads info t (superseded {b} {prev} new party l h) machine set =
    lead info t (roles_of info prev party) (Later-Leads info t l machine set)
      (check_write-Step info t prev new party h machine set)

starts-some :
    (initial : List Text) (o : Option Text)
    → starts initial o ≡ true
    → (s : Text) × (o ≡ some s) × (includes initial s ≡ true)
starts-some initial none h = cc
starts-some initial (some s) h = (s, refl, h)

check_genesis-starts :
    (t : Transitions) (next : Option Text) (roles : List Text)
    → check_genesis t next roles ≡ ok tt
    → is_set t.status_field ≡ true
    → some_of t.initial_status ≡ true
    → starts t.initial_status next ≡ true
unfolding check_genesis
check_genesis-starts t next roles h set listed =
    >>=-elim (demand (allowed t.initial_by roles) wrong_creator) _ h λ _ _ h1.
      let kept =
        refuse-eq-ok
          (is_set t.status_field && some_of t.initial_status && not (starts t.initial_status next))
          wrong_start h1 in
      ground arith

start-genesis :
    (o : Option Transitions) (t : Transitions) (next : Option Text) (roles : List Text)
    → check_start o next roles ≡ ok tt
    → o ≡ some t
    → check_genesis t next roles ≡ ok tt
unfolding check_start
start-genesis o t next roles h e = rw e at h

-- After an accepted genesis and any chain of accepted supersedes, the record's status is one that
-- the listed transitions lead to from one of the listed initial statuses.
pub Later-status :
    (info : TypeInfo) (t : Transitions) {first b : Members} (party : PartyContext)
    → check_write info none first party ≡ ok tt
    → Later info first b
    → info.transitions ≡ some t
    → is_set t.status_field ≡ true
    → some_of t.initial_status ≡ true
    → (s : Text) × (includes t.initial_status s ≡ true)
      × Leads t.transitions (some s) (status_of info b)
unfolding check_write check_transition
Later-status info t {first} party h l machine set listed =
    >>=-elim (check_role_continuity info none first party) _ h λ _ _ h1.
      let (s, at, initial) = starts-some t.initial_status (status_of info first) (
        check_genesis-starts t (status_of info first) (roles_of info first party)
          (start-genesis info.transitions t (status_of info first) (roles_of info first party) h1
            machine)
          set listed) in
      (s, initial, rw at at (Later-Leads info t l machine set))
