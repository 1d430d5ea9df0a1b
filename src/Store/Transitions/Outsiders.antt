-- ===== src/Store/Transitions/Outsiders.antt =====
-- A company that the superseded record does not name holds no role, whatever it writes.
use mathlib.Core.List.{Memᴰ}
use mathlib.Core.List.Memᴰ.{head, tail}
use direct_trade_protocol.Prelude.{
  ◌≡◌, ◌≢◌, refl, Bool, true, false, not, ◌&&◌, Option, none, some, List, [], ◌∷◌, Text, codes,
  ◌===◌, ok, demand, >>=-elim, arith, includes, all, inl, inr, Bool-cases, Option-cases, and-true,
}
use direct_trade_protocol.Canonical.{Members}
use direct_trade_protocol.Store.Transitions.{
  TransitionError, not_subject, PartyContext, Transition, Transitions, TypeInfo, get, is_text,
  held_roles, is_set, status_of, allowed, revisers, check_lock, check_supersede,
  check_role_continuity, check_transition, roles_of, check_write,
}
use direct_trade_protocol.Store.Transitions.Status.{Step, check_write-Step}

-- A record of this body names the issuer in none of the type's roles.
abbrev pub is_unnamed : TypeInfo → Members → PartyContext → Bool
is_unnamed info body party =
    not (party.issuer_company_id === party.subject_company_id)
    && not (includes party.counterparty_ids party.issuer_company_id)
    && all (λ (e : Text × Text). not (is_text (get body e.1) party.issuer_company_id)) info.roles

abbrev pub anyone : List Text
anyone = codes "any" ∷ []

-- No supersede of the type is open to the role "any".
abbrev pub is_closed : TypeInfo → Option Transitions → Bool
is_closed info none = true
is_closed info (some t) =
    all (λ (tr : Transition). not (allowed tr.by anyone)) t.transitions
    && not (allowed (revisers info.revision_by) anyone)

held_roles-unnamed :
    (entries : List (Text × Text)) (body : Members) (issuer : Text)
    → all (λ (e : Text × Text). not (is_text (get body e.1) issuer)) entries ≡ true
    → held_roles entries body issuer ≡ []
unfolding held_roles
held_roles-unnamed [] body issuer h = refl
held_roles-unnamed ((role, field) ∷ entries) body issuer h =
    let below = held_roles-unnamed entries body issuer (ground arith) in
    let absent : is_text (get body field) issuer ≡ false = ground arith in rw (absent, below)

roles_of-unnamed :
    (info : TypeInfo) (body : Members) (party : PartyContext)
    → is_unnamed info body party ≡ true
    → roles_of info body party ≡ anyone
unfolding roles_of
roles_of-unnamed info body party h =
    let own : (party.issuer_company_id === party.subject_company_id) ≡ false = ground arith in
    let other : includes party.counterparty_ids party.issuer_company_id ≡ false = ground arith in
    rw (own, other, held_roles-unnamed info.roles body party.issuer_company_id (ground arith))

all-Mem :
    (p : Transition → Bool) (l : List Transition) (tr : Transition)
    → all p l ≡ true
    → Memᴰ tr l
    → p tr ≡ true
all-Mem p [] tr h m = elim m [ ]
all-Mem p (x ∷ l) tr h m =
    let both = and-true (p x) (all p l) h in
    elim m [ head e ↦ rw e both.0 | tail n ↦ all-Mem p l tr both.1 n ]

closed-Step :
    (info : TypeInfo) (t : Transitions) (prev next : Option Text)
    → is_closed info (some t) ≡ true
    → Step info t prev next anyone
    → ⊥
closed-Step info t prev next closed step =
    let both =
      and-true (all (λ (tr : Transition). not (allowed tr.by anyone)) t.transitions)
        (not (allowed (revisers info.revision_by) anyone)) closed in
    elim step [
      | inl moved ↦
          let shut =
            all-Mem (λ (tr : Transition). not (allowed tr.by anyone)) t.transitions moved.move
              both.0 moved.listed in
          let open_to = moved.by_role in cc (shut, open_to)
      | inr revised ↦ let shut = both.1 in let open_to = revised.1 in cc (shut, open_to)
    ]

only_subject :
    (roles : List Text)
    → roles ≡ anyone
    → demand {E = TransitionError} (includes roles (codes "subject")) not_subject ≢ ok tt
unfolding includes ◌===◌
only_subject roles e h = let refused = rw e at h in cc refused

supersede-unset :
    (info : TypeInfo) (t : Transitions) (prev new : Members) (roles : List Text)
    → check_supersede info t prev new roles ≡ ok tt
    → is_set t.status_field ≡ false
    → demand (includes roles (codes "subject")) not_subject ≡ ok tt
unfolding check_supersede
supersede-unset info t prev new roles h unset = rw unset at h

-- No supersede is accepted from a company that is neither the subject nor a counterparty and that
-- no role field of the superseded record names, whatever the new body says of it, for a type
-- whose status machine, if it has one, opens no transition and no revision to "any".
pub check_write-outsider :
    (info : TypeInfo) (prev new : Members) (party : PartyContext)
    → is_unnamed info prev party ≡ true
    → is_closed info info.transitions ≡ true
    → check_write info (some prev) new party ≢ ok tt
unfolding check_write check_transition
check_write-outsider info prev new party unnamed closed h =
    let roles = roles_of-unnamed info prev party unnamed in
    >>=-elim (check_role_continuity info (some prev) new party) _ h λ _ _ h1.
      >>=-elim (check_lock info prev new) _ h1 λ _ _ h2. elim (Option-cases info.transitions) [
        | inl plain ↦ only_subject (roles_of info prev party) roles (rw plain at h2)
        | inr (t, machine) ↦ elim (Bool-cases (is_set t.status_field)) [
          | inl set ↦
              closed-Step info t (status_of info prev) (status_of info new) (rw machine at closed)
                (rw roles at (check_write-Step info t prev new party h machine set))
          | inr unset ↦
              only_subject (roles_of info prev party) roles (
                supersede-unset info t prev new (roles_of info prev party) (rw machine at h2) unset)
        ]
      ]
