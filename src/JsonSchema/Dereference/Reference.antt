-- ===== src/JsonSchema/Dereference/Reference.antt =====
-- jsonschema/refs.go: what it means that the references in a value are inlined.
use fastmcp.Prelude.{
  ℕ, Text, txt, text_eq, text_eq_iff, has_prefix, drop, length, ◌++◌, [], Bool, Option, none, some,
  ◌≡◌, ◌≢◌, ◌↔◌, refl, sym, ap, ◌∙◌, inl, inr, Bool-cases, Option-cases,
}
use fastmcp.Json.{
  Json, null, boolean, number, string, array, object, Items, no_items, item_then, Members,
  no_members, member_then,
}
use fastmcp.Server.Template.Matching.{has_prefix-split}
use fastmcp.JsonSchema.{find, as_text, def_name}
use fastmcp.JsonSchema.Unused.{is_used, own_name}
use fastmcp.JsonSchema.Unused.Kept.{find-write_member}
use fastmcp.JsonSchema.Dereference.{target_of, write_siblings}
use fastmcp.JsonSchema.Dereference.Inlined.{
  Inlining, no_null, no_boolean, no_number, no_string, each, unreferred, referred, InliningMembers,
  nothing_more, member_too, InliningItems, nothing_left, item_too, target_of-found,
}

-- an object refers to the definition with the name, which is the target
abbrev pub IsReference : Members → Members → Text → Members → Type 0
IsReference defs ms name target =
    (find (txt "$ref") ms ≡ some (string (txt "#/$defs/" ++ name)))
    × (find name defs ≡ some (object target))

abbrev pub RefersNowhere : Members → Members → Type 0
RefersNowhere defs ms = (name : Text) (target : Members) → ¬ IsReference defs ms name target

-- the members of the third are those of the first, the reference left out, and else those of the second
abbrev pub Overlays : Members → Members → Members → Type 0
Overlays ns resolved out =
    (find (txt "$ref") out ≡ find (txt "$ref") resolved)
    × ((k : Text) → k ≢ txt "$ref" → find k ns ≡ none → find k out ≡ find k resolved)
    × ((k : Text) (v : Json) → k ≢ txt "$ref" → find k ns ≡ some v → find k out ≡ some v)

mutual
  -- the second value is the first with every reference to a definition that is an object inlined, at any depth,
  -- also in what is inlined, and with the members next to the reference over those of the definition
  pub data Inlines (defs : Members) : Json → Json → Type 0 where
    inlines_null : Inlines defs null null
    inlines_boolean : (b : Bool) → Inlines defs (boolean b) (boolean b)
    inlines_number : (n : ℕ) → Inlines defs (number n) (number n)
    inlines_string : (s : Text) → Inlines defs (string s) (string s)
    inlines_array : {vs ws : Items} → InlinesItems defs vs ws → Inlines defs (array vs) (array ws)
    inlines_object :
        {ms ns : Members}
        → RefersNowhere defs ms
        → InlinesMembers defs ms ns
        → Inlines defs (object ms) (object ns)
    inlines_reference :
        {ms ns target resolved out : Members} {name : Text}
        → IsReference defs ms name target
        → Inlines defs (object target) (object resolved)
        → InlinesMembers defs ms ns
        → Overlays ns resolved out
        → Inlines defs (object ms) (object out)

  pub data InlinesMembers (defs : Members) : Members → Members → Type 0 where
    inlines_no_members : InlinesMembers defs no_members no_members
    inlines_member :
        {k : Text} {v w : Json} {ms ns : Members}
        → Inlines defs v w
        → InlinesMembers defs ms ns
        → InlinesMembers defs (member_then k v ms) (member_then k w ns)

  pub data InlinesItems (defs : Members) : Items → Items → Type 0 where
    inlines_no_items : InlinesItems defs no_items no_items
    inlines_item :
        {v w : Json} {vs ws : Items}
        → Inlines defs v w
        → InlinesItems defs vs ws
        → InlinesItems defs (item_then v vs) (item_then w ws)

def_name_iff : (ref name : Text) → (def_name ref ≡ some name) ↔ (ref ≡ txt "#/$defs/" ++ name)
unfolding def_name
def_name_iff ref name = (
  λ h. elim (Bool-cases (has_prefix ref (txt "#/$defs/"))) [
    | inl e ↦
        let f : drop (length (txt "#/$defs/")) ref ≡ name = cc (rw e at h) in
        has_prefix-split ref (txt "#/$defs/") e ∙ ap (λ x. txt "#/$defs/" ++ x) f
    | inr e ↦ let clash : ⊥ = cc (rw e at h) in absurd clash
  ],
  λ h. rw h refl,
)

as_text-string : (o : Option Json) (s : Text) → as_text o ≡ some s → o ≡ some (string s)
as_text-string none s e = cc
as_text-string (some (string t)) s e = cc
as_text-string (some (object ns)) s e = cc
as_text-string (some null) s e = cc
as_text-string (some (boolean b)) s e = cc
as_text-string (some (number n)) s e = cc
as_text-string (some (array vs)) s e = cc

own_name_iff :
    (ms : Members) (name : Text)
    → (own_name ms ≡ some name) ↔ (find (txt "$ref") ms ≡ some (string (txt "#/$defs/" ++ name)))
unfolding own_name
own_name_iff ms name = (
  λ h. elim (Option-cases (as_text (find (txt "$ref") ms))) [
    | inl e ↦ let clash : ⊥ = cc (rw e at h) in absurd clash
    | inr (ref, e) ↦
        as_text-string (find (txt "$ref") ms) _
          (e ∙ ap some ((def_name_iff ref name).0 (rw e at h)))
  ],
  λ h. rw h ((def_name_iff (txt "#/$defs/" ++ name) name).1 refl),
)

pub target_of-IsReference :
    (defs ms : Members) (name : Text) (target : Members)
    → target_of defs [] ms ≡ some (name, target)
    → IsReference defs ms name target
target_of-IsReference defs ms name target e =
    let (own, fresh, found) = target_of-found defs [] ms name target e in
    ((own_name_iff ms name).0 own, found)

pub target_of-RefersNowhere :
    (defs ms : Members) → target_of defs [] ms ≡ none → RefersNowhere defs ms
unfolding target_of is_used
target_of-RefersNowhere defs ms e name target (at, found) =
    let own = (own_name_iff ms name).1 at in
    let hit : target_of defs [] ms ≡ some (name, target) =
      rw (own, target_of) (rw (found, target_of) refl) in
    cc (sym e ∙ hit)

pub find-write_siblings :
    (ns rs : Members) → find (txt "$ref") (write_siblings ns rs) ≡ find (txt "$ref") rs
unfolding write_siblings
find-write_siblings no_members rs = refl
find-write_siblings (member_then k v ns) rs = elim (Bool-cases (text_eq k (txt "$ref"))) [
  | inl e ↦ rw e (find-write_siblings ns rs)
  | inr e ↦
      rw e (
        find-write_member k v (write_siblings ns rs) (txt "$ref")
        ∙ rw e (find-write_siblings ns rs))
]

find-write_siblings-none :
    (ns rs : Members) (j : Text) → find j ns ≡ none → find j (write_siblings ns rs) ≡ find j rs
unfolding write_siblings find
find-write_siblings-none no_members rs j h = refl
find-write_siblings-none (member_then k v ns) rs j h = elim (Bool-cases (text_eq k j)) [
  | inl s ↦ let f = rw s at h in cc
  | inr s ↦
      let rest = find-write_siblings-none ns rs j (rw s at h) in
      elim (Bool-cases (text_eq k (txt "$ref"))) [
        | inl e ↦ rw e rest
        | inr e ↦ rw e (find-write_member k v (write_siblings ns rs) j ∙ rw s rest)
      ]
]

find-write_siblings-some :
    (ns rs : Members) (j : Text) (w : Json)
    → j ≢ txt "$ref"
    → find j ns ≡ some w
    → find j (write_siblings ns rs) ≡ some w
unfolding write_siblings find
find-write_siblings-some no_members rs j w n h = cc
find-write_siblings-some (member_then k v ns) rs j w n h = elim (Bool-cases (text_eq k j)) [
  | inl s ↦
      let f = rw s at h in
      elim (Bool-cases (text_eq k (txt "$ref"))) [
        | inl e ↦ absurd (n (sym ((text_eq_iff k j).0 s) ∙ (text_eq_iff k (txt "$ref")).0 e))
        | inr e ↦ rw e (find-write_member k v (write_siblings ns rs) j ∙ rw s f)
      ]
  | inr s ↦
      let rest = find-write_siblings-some ns rs j w n (rw s at h) in
      elim (Bool-cases (text_eq k (txt "$ref"))) [
        | inl e ↦ rw e rest
        | inr e ↦ rw e (find-write_member k v (write_siblings ns rs) j ∙ rw s rest)
      ]
]

module _ (defs : Members) where
  mutual
    pub Inlining-Inlines : (v w : Json) → Inlining defs v w → Inlines defs v w
    Inlining-Inlines v w no_null = inlines_null
    Inlining-Inlines v w (no_boolean b) = inlines_boolean b
    Inlining-Inlines v w (no_number n) = inlines_number n
    Inlining-Inlines v w (no_string s) = inlines_string s
    Inlining-Inlines v w (each i) = inlines_array (InliningItems-InlinesItems _ _ i)
    Inlining-Inlines v w (unreferred {ms} {ns} e i) =
        inlines_object (target_of-RefersNowhere defs ms e) (InliningMembers-InlinesMembers ms ns i)
    Inlining-Inlines v w (referred {ms} {ns} {target} {resolved} {name} e r i) =
        inlines_reference (target_of-IsReference defs ms name target e)
          (Inlining-Inlines (object target) (object resolved) r)
          (InliningMembers-InlinesMembers ms ns i)
          (
            find-write_siblings ns resolved,
            λ k n h. find-write_siblings-none ns resolved k h,
            λ k v n h. find-write_siblings-some ns resolved k v n h,
          )

    InliningMembers-InlinesMembers :
        (ms ns : Members) → InliningMembers defs ms ns → InlinesMembers defs ms ns
    InliningMembers-InlinesMembers ms ns nothing_more = inlines_no_members
    InliningMembers-InlinesMembers ms ns (member_too i is) =
        inlines_member (Inlining-Inlines _ _ i) (InliningMembers-InlinesMembers _ _ is)

    InliningItems-InlinesItems :
        (vs ws : Items) → InliningItems defs vs ws → InlinesItems defs vs ws
    InliningItems-InlinesItems vs ws nothing_left = inlines_no_items
    InliningItems-InlinesItems vs ws (item_too i is) =
        inlines_item (Inlining-Inlines _ _ i) (InliningItems-InlinesItems _ _ is)
