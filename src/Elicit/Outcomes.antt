-- ===== src/Elicit/Outcomes.antt =====
-- elicit/elicit.go and elicit/typed.go: what a call of Elicit that no user accepted leaves behind.
use fastmcp.Prelude.{
  Text, txt, text_eq, text_eq_iff, Bool, true, false, ◌&&◌, List, [], Option, none, some, Result,
  done, failed, ◌≡◌, refl, ◌∙◌, ◌⊎◌, inl, inr, Bool-cases, if◌then◌else◌,
}
use fastmcp.Elicit.Request.{
  filled, on_result, on_schema, ElicitCodec, ElicitResult, Elicited, Requester, SchemaArgument,
  RequestedSchema, elicit, elicit_string, elicit_bool, elicit_enum, fill_dest, has_content,
  normalize_schema, on_reply, with_action,
}

-- the destination is as it was, and an action is reported without an error
abbrev pub IsUntouched : {W D : Type 0} → D → Elicited W D → Type 0
IsUntouched d e = (e.dest ≡ d) × ((e.error ≡ none) ⊎ (e.action ≡ []))

abbrev pub IsDecided : {W D : Type 0} → D → Elicited W D → Type 0
IsDecided d e = (e.action ≡ txt "accept") ⊎ IsUntouched d e

module _ {W D : Type 0} (codec : ElicitCodec D) where
  with_action-action :
      (action : Text) (w : W) (o : D × Option Text) → (with_action codec action w o).action ≡ action
  with_action-action action w (d, none) = refl
  with_action-action action w (d, some m) = refl

  filled-action :
      (res : ElicitResult) (w : W) (d : D) (b : Result Text)
      → (filled codec res w d b).action ≡ res.action
  filled-action res w d (failed m) = refl
  filled-action res w d (done b) = with_action-action res.action w (codec.unmarshal b d)

  fill_dest-action :
      (res : ElicitResult) (w : W) (d : D) → (fill_dest codec res w d).action ≡ res.action
  unfolding fill_dest
  fill_dest-action res w d = filled-action res w d _

  filled-IsDecided :
      (res : ElicitResult) (w : W) (d : D) (fills : Bool)
      → IsDecided d (
          if text_eq res.action (txt "accept") && fills
          then fill_dest codec res w d
          else with_action codec res.action w (d, none))
  filled-IsDecided res w d true = elim (Bool-cases (text_eq res.action (txt "accept"))) [
    | inl e ↦ rw e (inl (fill_dest-action res w d ∙ (text_eq_iff _ _).0 e))
    | inr e ↦ rw e (inr (refl, inl refl))
  ]
  filled-IsDecided res w d false = elim (Bool-cases (text_eq res.action (txt "accept"))) [
    | inl e ↦ rw e (inr (refl, inl refl))
    | inr e ↦ rw e (inr (refl, inl refl))
  ]

  on_result-IsDecided :
      (wanted : Bool) (r : Result ElicitResult) (w : W) (d : D)
      → IsDecided d (on_result codec wanted r w d)
  on_result-IsDecided wanted (failed m) w d = inr (refl, inr refl)
  on_result-IsDecided wanted (done res) w d =
      filled-IsDecided res w d (wanted && has_content res.content)

  on_reply-IsDecided :
      (wanted : Bool) (reply : Result Text) (w : W) (d : D)
      → IsDecided d (on_reply codec wanted reply w d)
  unfolding on_reply
  on_reply-IsDecided wanted (failed m) w d = inr (refl, inr refl)
  on_reply-IsDecided wanted (done raw) w d = on_result-IsDecided wanted (codec.result_json raw) w d

  on_schema-IsDecided :
      (r : Requester W) (message : Text) (s : Result RequestedSchema) (wanted : Bool) (w : W)
      (d : D)
      → IsDecided d (on_schema codec r message s wanted w d)
  unfolding on_schema
  on_schema-IsDecided r message (failed m) wanted w d = inr (refl, inr refl)
  on_schema-IsDecided r message (done s) wanted w d = on_reply-IsDecided wanted _ _ d

  -- The action that Elicit reports is "accept", or the destination is as it was and there is no error
  -- or no action.
  elicit-IsDecided :
      (r : Option (Requester W)) (message : Text) (schema : SchemaArgument) (wanted : Bool) (w : W)
      (d : D)
      → IsDecided d (elicit codec r message schema wanted w d)
  unfolding elicit
  elicit-IsDecided none message schema wanted w d = inr (refl, inr refl)
  elicit-IsDecided (some r) message schema wanted w d =
      on_schema-IsDecided r message (normalize_schema schema) wanted w d

-- However a helper for one value ends, on any requester and any codecs, the action it reports is
-- "accept", or its value is zero and it reports no error, or no action. A decline or a cancellation is no
-- error and leaves no value.
pub helpers-IsDecided :
    {W : Type 0} (texts : ElicitCodec Text) (bools : ElicitCodec Bool) (r : Option (Requester W))
    (message prompt : Text) (options : List Text) (w : W)
    → IsDecided [] (elicit_string texts r message prompt w)
      × IsDecided false (elicit_bool bools r message prompt w)
      × IsDecided [] (elicit_enum texts r message prompt options w)
unfolding elicit_string elicit_bool elicit_enum
helpers-IsDecided texts bools r message prompt options w = (
  elicit-IsDecided texts r message _ true w [],
  elicit-IsDecided bools r message _ true w false,
  elicit-IsDecided texts r message _ true w [],
)
