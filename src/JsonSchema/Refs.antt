-- ===== src/JsonSchema/Refs.antt =====
-- jsonschema/refs.go: what StripRemoteRefs leaves of a schema.
use fastmcp.Prelude.{
  Text, txt, text_eq, text_eq_iff, false, ◌&&◌, Option, none, some, ◌≡◌, refl, ◌∙◌, ap, inl, inr,
  arith, Bool-cases, if◌then◌else◌,
}
use fastmcp.Json.{
  Json, null, boolean, number, string, array, object, Items, no_items, item_then, Members,
  no_members, member_then,
}
use fastmcp.JsonSchema.{
  members_of, find, remove, as_text, is_remote, refers_away, strip_remote, strip_members,
  strip_items, strip_remote_refs,
}

mutual
  -- no object in it, at any depth, has a remote reference
  pub IsLocal : Json → Type 0
  IsLocal (object ms) = (refers_away ms ≡ false) × AreLocal ms
  IsLocal (array vs) = AllLocal vs
  IsLocal null = Unit
  IsLocal (boolean b) = Unit
  IsLocal (number n) = Unit
  IsLocal (string s) = Unit

  pub AreLocal : Members → Type 0
  AreLocal no_members = Unit
  AreLocal (member_then k v ms) = IsLocal v × AreLocal ms

  pub AllLocal : Items → Type 0
  AllLocal no_items = Unit
  AllLocal (item_then v vs) = IsLocal v × AllLocal vs

strip-as_text : (v : Json) → as_text (some (strip_remote v)) ≡ as_text (some v)
unfolding strip_remote
strip-as_text (object ms) = refl
strip-as_text (array vs) = refl
strip-as_text null = refl
strip-as_text (boolean b) = refl
strip-as_text (number n) = refl
strip-as_text (string s) = refl

pub find-remove_self : (k : Text) (ms : Members) → find k (remove k ms) ≡ none
unfolding find remove
find-remove_self k no_members = refl
find-remove_self k (member_then j v ms) = ground (arith, find-remove_self k ms)

pub find-remove_other :
    (k j : Text) (ms : Members) → text_eq k j ≡ false → find j (remove k ms) ≡ find j ms
unfolding find remove
find-remove_other k j no_members h = refl
find-remove_other k j (member_then i v ms) h =
    ground (arith, text_eq_iff i k, text_eq_iff i j, text_eq_iff k j, find-remove_other k j ms h)

AreLocal-remove : (k : Text) (ms : Members) → AreLocal ms → AreLocal (remove k ms)
unfolding remove IsLocal
AreLocal-remove k no_members h = tt
AreLocal-remove k (member_then j v ms) h = elim (Bool-cases (text_eq j k)) [
  | inl e ↦ rw e (AreLocal-remove k ms h.1)
  | inr e ↦ rw e (h.0, AreLocal-remove k ms h.1)
]

refers_away-strip : (ms : Members) → refers_away (strip_members ms) ≡ refers_away ms
unfolding find strip_remote
refers_away-strip no_members = refl
refers_away-strip (member_then k v ms) = elim (Bool-cases (text_eq k (txt "$ref"))) [
  | inl e ↦ rw e (ap is_remote (strip-as_text v))
  | inr e ↦ rw e (refers_away-strip ms)
]

mutual
  unfolding strip_remote IsLocal

  strip_remote-IsLocal : (v : Json) → IsLocal (strip_remote v)
  strip_remote-IsLocal (object ms) = elim (Bool-cases (refers_away ms)) [
    | inl e ↦ rw e (
      ap (λ o. is_remote (as_text o)) (find-remove_self (txt "$ref") (strip_members ms)),
      AreLocal-remove (txt "$ref") (strip_members ms) (strip_members-AreLocal ms),
    )
    | inr e ↦ rw e (refers_away-strip ms ∙ e, strip_members-AreLocal ms)
  ]
  strip_remote-IsLocal (array vs) = strip_items-AllLocal vs
  strip_remote-IsLocal null = tt
  strip_remote-IsLocal (boolean b) = tt
  strip_remote-IsLocal (number n) = tt
  strip_remote-IsLocal (string s) = tt

  strip_members-AreLocal : (ms : Members) → AreLocal (strip_members ms)
  strip_members-AreLocal no_members = tt
  strip_members-AreLocal (member_then k v ms) = (strip_remote-IsLocal v, strip_members-AreLocal ms)

  strip_items-AllLocal : (vs : Items) → AllLocal (strip_items vs)
  strip_items-AllLocal no_items = tt
  strip_items-AllLocal (item_then v vs) = (strip_remote-IsLocal v, strip_items-AllLocal vs)

mutual
  unfolding strip_remote IsLocal

  strip_remote-local : (v : Json) → IsLocal v → strip_remote v ≡ v
  strip_remote-local (object ms) h = rw (h.0) (ap object (strip_members-local ms h.1))
  strip_remote-local (array vs) h = ap array (strip_items-local vs h)
  strip_remote-local null h = refl
  strip_remote-local (boolean b) h = refl
  strip_remote-local (number n) h = refl
  strip_remote-local (string s) h = refl

  strip_members-local : (ms : Members) → AreLocal ms → strip_members ms ≡ ms
  strip_members-local no_members h = refl
  strip_members-local (member_then k v ms) h =
      cc (strip_remote-local v h.0, strip_members-local ms h.1)

  strip_items-local : (vs : Items) → AllLocal vs → strip_items vs ≡ vs
  strip_items-local no_items h = refl
  strip_items-local (item_then v vs) h = cc (strip_remote-local v h.0, strip_items-local vs h.1)

abbrev pub stripped : Option Json → Option Json
stripped none = none
stripped (some v) = some (strip_remote v)

find-strip_members : (k : Text) (ms : Members) → find k (strip_members ms) ≡ stripped (find k ms)
unfolding find strip_remote
find-strip_members k no_members = refl
find-strip_members k (member_then j v ms) = elim (Bool-cases (text_eq j k)) [
  | inl e ↦ rw e refl
  | inr e ↦ rw e (find-strip_members k ms)
]

find-strip_remote_refs :
    (schema : Members) (k : Text)
    → find k (strip_remote_refs schema)
      ≡ (if refers_away schema && text_eq (txt "$ref") k then none else stripped (find k schema))
unfolding strip_remote_refs
find-strip_remote_refs schema k = elim (Bool-cases (refers_away schema)) [
  | inl e ↦ rw e (elim (Bool-cases (text_eq (txt "$ref") k)) [
    | inl r ↦ rw (r, ← (text_eq_iff _ _).0 r) (find-remove_self _ (strip_members schema))
    | inr r ↦ rw r (find-remove_other _ k (strip_members schema) r ∙ find-strip_members k schema)
  ])
  | inr e ↦ rw e (find-strip_members k schema)
]

-- No object of what StripRemoteRefs returns, at any depth, has a reference that is not local; stripping
-- that again changes nothing; and of each key of the schema it has the stripped value, only the root's
-- reference, if it is remote, is gone.
pub strip_remote_refs-IsLocal :
    (schema : Members) (k : Text)
    → IsLocal (object (strip_remote_refs schema))
      × (strip_remote_refs (strip_remote_refs schema) ≡ strip_remote_refs schema)
      × (find k (strip_remote_refs schema) ≡ (
          if refers_away schema && text_eq (txt "$ref") k then none else stripped (find k schema)))
unfolding strip_remote_refs
strip_remote_refs-IsLocal schema k = (
  strip_remote-IsLocal (object schema),
  ap members_of (strip_remote-local _ (strip_remote-IsLocal (object schema))),
  find-strip_remote_refs schema k,
)
