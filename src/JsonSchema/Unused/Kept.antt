-- ===== src/JsonSchema/Unused/Kept.antt =====
-- jsonschema/transform.go: which definitions pruneUnusedDefs keeps.
use fastmcp.Prelude.{
  sym, ℕ, zero, suc, Text, txt, text_eq, text_eq_iff, length, false, ◌==◌, List, [], ◌∷◌, none,
  some, ◌≡◌, ◌↔◌, inl, inr, refl, subst, ap, ◌∙◌, arith, Bool-cases, Option-cases, if◌then◌else◌,
}
use fastmcp.Json.{Json, object, Members, no_members, member_then}
use fastmcp.JsonSchema.{find, remove, write_member, as_map, as_text}
use fastmcp.JsonSchema.Refs.{find-remove_self, find-remove_other}
use fastmcp.JsonSchema.Validate.Keywords.{or_no_members}
use fastmcp.JsonSchema.Unused.{
  own_name, local_name, is_used, collect_members, seed, enough_rounds, follow_round, rounds,
  reached, keep_used, write_defs, prune_unused_defs,
}
use fastmcp.JsonSchema.Unused.Refers.{
  Refers, ReferIn, Seeds, IsUsed, IsUsed_head, Leads, LeadFrom, ReferIn-find, LeadFrom-used,
  collect_members_iff, seed_iff, follow_iff,
}
use fastmcp.JsonSchema.Unused.Rounds.{rounds-settled}

-- what the rounds find: a value of the document, but that of `$defs`, refers to the definition, or such a
-- definition does
data IsFollowed (node defs : Members) : Text → Type 0 where
  seeded : {m : Text} → Seeds m node → IsFollowed node defs m
  followed : {n m : Text} → IsFollowed node defs n → Leads defs n m → IsFollowed node defs m

LeadFrom-reachable :
    (node defs : Members) (m : Text) (names : List Text)
    → ((n : Text) → IsUsed names n → IsFollowed node defs n)
    → LeadFrom defs names m
    → IsFollowed node defs m
unfolding LeadFrom is_used
LeadFrom-reachable node defs m [] h l = elim l [ ]
LeadFrom-reachable node defs m (n ∷ names) h (inl l) = followed (h n (IsUsed_head n names)) l
LeadFrom-reachable node defs m (n ∷ names) h (inr l) =
    LeadFrom-reachable node defs m names (λ x u. h x (ground (arith, u))) l

follow_round-reachable :
    (node defs : Members) (used : List Text)
    → ((m : Text) → IsUsed used m → IsFollowed node defs m)
    → (m : Text) → IsUsed (follow_round defs used) m
    → IsFollowed node defs m
follow_round-reachable node defs used h m u = elim ((follow_iff defs used used m).0 u) [
  | inl l ↦ LeadFrom-reachable node defs m used h l
  | inr v ↦ h m v
]

rounds-reachable :
    (node defs : Members) (n : ℕ) (used : List Text)
    → ((m : Text) → IsUsed used m → IsFollowed node defs m)
    → (m : Text) → IsUsed (rounds n defs used) m
    → IsFollowed node defs m
unfolding rounds
rounds-reachable node defs zero used h m u = h m u
rounds-reachable node defs (suc n) used h m u =
    elim (Bool-cases (length (follow_round defs used) == length used)) [
      | inl e ↦ let v = rw e at u in follow_round-reachable node defs used h m v
      | inr e ↦
          let v = rw e at u in
          rounds-reachable node defs n _ (follow_round-reachable node defs used h) m v
    ]

rounds-grow :
    (defs : Members) (n : ℕ) (used : List Text) (m : Text)
    → IsUsed used m
    → IsUsed (rounds n defs used) m
unfolding rounds
rounds-grow defs zero used m u = u
rounds-grow defs (suc n) used m u =
    let more = (follow_iff defs used used m).1 (inr u) in
    elim (Bool-cases (length (follow_round defs used) == length used)) [
      | inl e ↦ rw e more
      | inr e ↦ rw e (rounds-grow defs n _ m more)
    ]

reached-settled : (node defs : Members) → follow_round defs (reached node defs) ≡ reached node defs
unfolding reached enough_rounds
reached-settled node defs =
    rounds-settled defs (collect_members defs (seed node []))
      (λ n m l. (collect_members_iff defs _ m).1 (inl (ReferIn-find defs n m l)))
      (enough_rounds node defs) (seed node []) (ground arith)

reachable-IsUsed :
    (node defs : Members) (m : Text) → IsFollowed node defs m → IsUsed (reached node defs) m
unfolding reached
reachable-IsUsed node defs m (seeded s) =
    rounds-grow defs (enough_rounds node defs) (seed node []) m ((seed_iff node [] m).1 (inl s))
reachable-IsUsed node defs m (followed {n} r l) =
    let u = reachable-IsUsed node defs n r in
    subst (λ used. IsUsed used m) (reached-settled node defs)
      ((follow_iff defs _ _ m).1 (inl (LeadFrom-used defs n m (reached node defs) u l)))

reached_iff :
    (node defs : Members) (m : Text) → IsUsed (reached node defs) m ↔ IsFollowed node defs m
unfolding reached is_used
reached_iff node defs m = (
  rounds-reachable node defs (enough_rounds node defs) (seed node [])
      (λ x u. elim ((seed_iff node [] x).0 u) [ inl s ↦ seeded s | inr v ↦ cc ]) m,
  reachable-IsUsed node defs m,
)

-- the definitions of a document
pub defs_of : Members → Members
defs_of node = or_no_members (as_map (find (txt "$defs") node))

find-keep_used :
    (used : List Text) (defs : Members) (k : Text)
    → find k (keep_used used defs) ≡ (if is_used used k then find k defs else none)
unfolding find keep_used
find-keep_used used no_members k = ground arith
find-keep_used used (member_then j v defs) k =
    ground (arith, text_eq_iff j k, find-keep_used used defs k)

pub find-write_member :
    (k : Text) (v : Json) (ms : Members) (j : Text)
    → find j (write_member k v ms) ≡ (if text_eq k j then some v else find j ms)
unfolding find write_member
find-write_member k v no_members j = ground arith
find-write_member k v (member_then i w ms) j =
    ground (arith, text_eq_iff i k, text_eq_iff i j, text_eq_iff k j, find-write_member k v ms j)

find-write_defs :
    (defs node : Members) (k : Text)
    → text_eq (txt "$defs") k ≡ false
    → find k (write_defs defs node) ≡ find k node
find-write_defs no_members node k h = find-remove_other (txt "$defs") k node h
find-write_defs (member_then j v defs) node k h =
    find-write_member (txt "$defs") (object (member_then j v defs)) node k ∙ rw h refl

defs_of-write_defs : (defs node : Members) → defs_of (write_defs defs node) ≡ defs
unfolding defs_of text_eq
defs_of-write_defs no_members node = rw (find-remove_self (txt "$defs") node) refl
defs_of-write_defs (member_then j v defs) node =
    ap (λ o. or_no_members (as_map o))
      (find-write_member (txt "$defs") (object (member_then j v defs)) node (txt "$defs"))

defs_of-prune :
    (node : Members)
    → defs_of (prune_unused_defs node) ≡ keep_used (reached node (defs_of node)) (defs_of node)
unfolding prune_unused_defs defs_of keep_used
defs_of-prune node = elim (Option-cases (as_map (find (txt "$defs") node))) [
  | inl e ↦ rw (e, prune_unused_defs) (ap or_no_members e)
  | inr (defs, e) ↦
      rw (e, prune_unused_defs) (defs_of-write_defs (keep_used (reached node defs) defs) node)
]

find-prune_other :
    (node : Members) (k : Text)
    → text_eq (txt "$defs") k ≡ false
    → find k (prune_unused_defs node) ≡ find k node
unfolding prune_unused_defs
find-prune_other node k h = elim (Option-cases (as_map (find (txt "$defs") node))) [
  | inl e ↦ rw (e, prune_unused_defs) refl
  | inr (defs, e) ↦
      rw (e, prune_unused_defs) (find-write_defs (keep_used (reached node defs) defs) node k h)
]

-- The document without its definitions refers to the definition, at any depth and at its root too, or a
-- reachable definition does.
pub data IsReachable (node : Members) : Text → Type 0 where
  mentioned : {m : Text} → Refers m (object (remove (txt "$defs") node)) → IsReachable node m
  led : {n m : Text} → IsReachable node n → Leads (defs_of node) n m → IsReachable node m

Seeds-iff : (node : Members) (m : Text) → Seeds m node ↔ ReferIn m (remove (txt "$defs") node)
unfolding Seeds Refers remove
Seeds-iff no_members m = (λ h. h, λ h. h)
Seeds-iff (member_then k v ms) m = elim (Bool-cases (text_eq k (txt "$defs"))) [
  | inl e ↦
      let later = Seeds-iff ms m in
      rw e (λ s. elim s [ inl p ↦ cc | inr q ↦ later.0 q ], λ q. inr (later.1 q))
  | inr e ↦
      let later = Seeds-iff ms m in
      rw e (
        λ s. elim s [ inl p ↦ inl p.1 | inr q ↦ inr (later.0 q) ],
        λ s. elim s [ inl p ↦ inl (refl, p) | inr q ↦ inr (later.1 q) ],
      )
]

own_name-remove : (node : Members) → own_name (remove (txt "$defs") node) ≡ own_name node
unfolding own_name text_eq
own_name-remove node =
    ap (λ o. local_name (as_text o)) (find-remove_other (txt "$defs") (txt "$ref") node refl)

module _ (node : Members) (rootless : own_name node ≡ none) where
  followed-IsReachable : (m : Text) → IsFollowed node (defs_of node) m → IsReachable node m
  unfolding Refers
  followed-IsReachable m (seeded s) = mentioned (inr ((Seeds-iff node m).0 s))
  followed-IsReachable m (followed {n} r l) = led (followed-IsReachable n r) l

  reachable-IsFollowed : (m : Text) → IsReachable node m → IsFollowed node (defs_of node) m
  unfolding Refers
  reachable-IsFollowed m (mentioned (inl e)) =
      let clash : ⊥ = cc (sym rootless ∙ (sym (own_name-remove node) ∙ e)) in absurd clash
  reachable-IsFollowed m (mentioned (inr r)) = seeded ((Seeds-iff node m).1 r)
  reachable-IsFollowed m (led {n} r l) = followed (reachable-IsFollowed n r) l

-- Of a document whose root is not itself a reference to a definition, pruneUnusedDefs leaves every
-- definition that the rest of the document refers to, directly or through definitions, as it was, and no
-- other, and every other key of the document as it was.
pub prune_unused_defs-kept :
    (node : Members) (name : Text)
    → own_name node ≡ none
    → (IsReachable node name
        → find name (defs_of (prune_unused_defs node)) ≡ find name (defs_of node))
      × (¬ IsReachable node name → find name (defs_of (prune_unused_defs node)) ≡ none)
      × ((k : Text)
          → text_eq (txt "$defs") k ≡ false
          → find k (prune_unused_defs node) ≡ find k node)
prune_unused_defs-kept node name rootless =
    let left = ap (find name) (defs_of-prune node) ∙ find-keep_used _ (defs_of node) name in
    let reachable = reached_iff node (defs_of node) name in
    (
      λ r. left ∙ rw (reachable.1 (reachable-IsFollowed node rootless name r)) refl,
      λ not_r. elim (Bool-cases (is_used (reached node (defs_of node)) name)) [
        | inl e ↦ elim (not_r (followed-IsReachable node rootless name (reachable.0 e))) [ ]
        | inr e ↦ left ∙ rw e refl
      ],
      find-prune_other node,
    )
