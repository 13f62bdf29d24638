-- ===== src/Server/Dispatch/Completion.antt =====
-- completion/complete of completion.go: at most 100 values, and the true total.
use fastmcp.Prelude.{
  ℕ, zero, suc, sym, ◌≤◌, ◌<◌, ◌++◌, Text, txt, Bool, true, false, ltb, length, take, drop,
  take-append-drop, length-take, List, [], ◌∷◌, Option, none, some, Outcome, ok, err, panic, ◌≡◌,
  ◌↔◌, refl, ◌∙◌, ap, arith, ◌&&◌, ◌||◌, text_eq, text_eq_iff, done, branch, if◌then◌else◌,
  Bool-cases, Option-cases, inl, inr,
}
use fastmcp.Prelude.Int.{pos}
use fastmcp.Rpc.{Error, Value, strs, int, bool, obj, end, field}
use fastmcp.Prelude.Dict.{get, has, get-put}
use fastmcp.Session.{World}
use fastmcp.Server.{
  Server, Context, CompletionFunc, TemplateEntry, PromptEntry, complete_first, complete_prompt,
  complete_resource_template,
}
use fastmcp.Server.Codec.{Codec, CompleteParams}
use fastmcp.Server.Dispatch.Handlers.{
  completion, suggestions, completer_in, completer_of, template_completer, handle_complete,
}

abbrev pub Completes : List Text → Value → Type 0
Completes values v =
    (shown : List Text) × (rest : List Text) × (more : Bool) × (values ≡ shown ++ rest)
    × (length shown ≤ 100)
    × ((more ≡ true) ↔ (100 < length values))
    × (more ≡ false → shown ≡ values)
    × (v
        ≡ obj (
            field (txt "completion")
              (obj (
                field (txt "values") (strs shown) (
                  field (txt "total") (int (pos (length values)))
                    (field (txt "hasMore") (bool more) end))))
              end))

take_all : (n : ℕ) (xs : List Text) → length xs ≤ n → take n xs ≡ xs
take_all zero [] h = refl
take_all zero (x ∷ xs) h = absurd (omega arith)
take_all (suc n) [] h = refl
take_all (suc n) (x ∷ xs) h = rw (take_all n xs (omega arith))

-- A completion shows a prefix of the values, of at most 100, with the number of all of them; it says
-- that there are more exactly if there are more than 100, and otherwise shows them all.
pub completion-Completes : (values : List Text) → Completes values (completion values)
unfolding completion
completion-Completes values = (
  take 100 values,
  drop 100 values,
  ltb 100 (length values),
  sym (take-append-drop 100 values),
  omega (arith, length-take 100 values),
  ground arith,
  λ e. take_all 100 values (ground arith),
  refl,
)

-- What the client gets for the values of a callback: a completion of them. A panic goes on.
abbrev pub CompletesWith : Outcome ⊥ (List Text) → Outcome Error Value → Type 0
CompletesWith (ok values) o = (v : Value) × (o ≡ ok v) × Completes values v
CompletesWith (err e) o = ⊥
CompletesWith (panic m) o = o ≡ panic m

module _ {W : Type 0} (lib : Codec) where
  complete_run :
      (r : Outcome ⊥ (List Text)) (w : World W)
      → CompletesWith r
          (branch {E = Error} r (λ e. absurd e) (λ values w. (ok (completion values), w)) w).0
        × ((branch {E = Error} r (λ e. absurd e) (λ values w. (ok (completion values), w)) w).1 ≡ w)
  complete_run (ok values) w = ((completion values, refl, completion-Completes values), refl)
  complete_run (err e) w = absurd e
  complete_run (panic m) w = (refl, refl)

  -- completion/complete, for parameters that decode, asks the callback of the reference once, or takes
  -- no values where there is none, and answers with a completion of the values: never an error.
  pub complete_answers :
      (s : Server W) (c : Context) (params : Text) (w : World W) {p : CompleteParams}
      → lib.complete_params params ≡ done p
      → CompletesWith
          (suggestions (completer_of s p) c p.argument.name p.argument.value w).0
          (handle_complete lib s c params w).0
        × ((handle_complete lib s c params w).1
            ≡ (suggestions (completer_of s p) c p.argument.name p.argument.value w).1)
  unfolding handle_complete
  complete_answers s c params w {p = p} d =
      let run = suggestions (completer_of s p) c p.argument.name p.argument.value w in
      rw d (complete_run run.0 run.1)

if_false {ℓ} : {A : Type ℓ} (b : Bool) (x y : A) → y ≡ (if b && false then x else y)
if_false true x y = refl
if_false false x y = refl

if_same {ℓ} :
    {A : Type ℓ} (b : Bool) (x y z : A)
    → (if b then x else y) ≡ (if b && true then x else if b then z else y)
if_same true x y z = refl
if_same false x y z = refl

if_swap {ℓ} :
    {A : Type ℓ} (b h c : Bool) (x z y : A)
    → (b ≡ true → c ≡ false)
    → (if c then z else if b && h then x else y) ≡ (if b && h then x else if c then z else y)
if_swap true h c x z y f = rw (f refl)
if_swap false h c x z y f = refl

module _ {W : Type 0} where
  abbrev pub has_template : Text → List (TemplateEntry W) → Bool
  has_template u [] = false
  has_template u (t ∷ ts) = text_eq t.template u || has_template u ts

  template_completer-complete_first :
      (u v : Text) (fn : CompletionFunc W) (ts : List (TemplateEntry W))
      → template_completer v (complete_first u fn ts)
        ≡ (if text_eq u v && has_template u ts then some fn else template_completer v ts)
  unfolding template_completer complete_first
  template_completer-complete_first u v fn [] = if_false (text_eq u v) (some fn) none
  template_completer-complete_first u v fn (t ∷ ts) = elim (Bool-cases (text_eq t.template u)) [
    | inl same ↦ rw same (
        rw (ap (λ x. text_eq x v) ((text_eq_iff t.template u).0 same))
          (if_same (text_eq u v) (some fn) (template_completer v ts) t.completer))
    | inr other ↦ rw other (
        rw (template_completer-complete_first u v fn ts) (
          if_swap (text_eq u v) (has_template u ts) (text_eq t.template v) (some fn) t.completer
            (template_completer v ts)
            (λ e. ap (λ x. text_eq t.template x) (sym ((text_eq_iff u v).0 e)) ∙ other)))
  ]

  completer_in_if :
      (b : Bool) (e : PromptEntry W) (m : Option (PromptEntry W))
      → completer_in (if b then some e else m) ≡ (if b && true then e.completer else completer_in m)
  completer_in_if true e m = refl
  completer_in_if false e m = refl

  prompt_completer :
      (key n : Text) (fn : CompletionFunc W) (s : Server W)
      → completer_in (get n (complete_prompt key fn s).prompts)
        ≡ (if text_eq key n && has key s.prompts then some fn else completer_in (get n s.prompts))
  unfolding complete_prompt
  prompt_completer key n fn s = elim (Option-cases (get key s.prompts)) [
    | inl e ↦
        rw (e, complete_prompt)
          (if_false (text_eq key n) (some fn) (completer_in (get n s.prompts)))
    | inr (pr, e) ↦
        rw (e, complete_prompt)
          (rw (get-put key n (record pr { completer = some fn }) s.prompts)
            (completer_in_if (text_eq key n) (record pr { completer = some fn }) (get n s.prompts)))
  ]

  templates-complete_prompt :
      (key : Text) (fn : CompletionFunc W) (s : Server W)
      → (complete_prompt key fn s).templates ≡ s.templates
  unfolding complete_prompt
  templates-complete_prompt key fn s = elim (Option-cases (get key s.prompts)) [
    | inl e ↦ rw (e, complete_prompt)
    | inr (pr, e) ↦ rw (e, complete_prompt)
  ]

  -- A callback attached to a prompt or a resource template is the one that a completion of a
  -- reference to it asks, if it is registered; every other reference keeps the callback it had.
  pub completer_of_attached :
      (key : Text) (fn : CompletionFunc W) (s : Server W) (p : CompleteParams)
      → (completer_of (complete_prompt key fn s) p ≡ (
          if text_eq p.ref.type (txt "ref/prompt") && (text_eq key p.ref.name && has key s.prompts)
          then some fn
          else completer_of s p))
        × (completer_of (complete_resource_template key fn s) p ≡ (
            if text_eq p.ref.type (txt "ref/resource")
              && (text_eq key p.ref.uri && has_template key s.templates)
            then some fn
            else completer_of s p))
  unfolding completer_of complete_resource_template text_eq
  completer_of_attached key fn s p = elim (Bool-cases (text_eq p.ref.type (txt "ref/prompt"))) [
    | inl q ↦ (
      rw q (prompt_completer key p.ref.name fn s),
      rw ((text_eq_iff p.ref.type (txt "ref/prompt")).0 q),
    )
    | inr q ↦ (
      rw (q, templates-complete_prompt key fn s),
      rw q (elim (Bool-cases (text_eq p.ref.type (txt "ref/resource"))) [
        | inl r ↦ rw r (template_completer-complete_first key p.ref.uri fn s.templates)
        | inr r ↦ rw r
      ]),
    )
  ]
