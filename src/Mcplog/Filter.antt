-- ===== src/Mcplog/Filter.antt =====
-- What the Logger of mcplog/mcplog.go lets through.
use fastmcp.Prelude.{
  ◌+◌, ◌≤◌, ◌%◌, leb, Text, Bool, true, false, List, [], ◌∷◌, some, ◌≡◌, ◌↔◌, refl, ◌∙◌, arith,
  if◌then◌else◌,
}
use fastmcp.Rpc.{Value}
use fastmcp.Mcplog.{
  Level, is_valid, biased, enabled, LogMessage, Logger, new_logger, set_level, emit, log,
}

-- what a program does with a logger
pub data LogCall : Type 0 where
  change : Level → LogCall
  emission : Level → Value → LogCall

module _ {S : Type 0} where
  unfoldable pub run_calls : List LogCall → Logger S → S → S
  unfolding log set_level
  run_calls [] l s = s
  run_calls (change min ∷ calls) l s = run_calls calls (set_level min l) s
  run_calls (emission level v ∷ calls) l s = run_calls calls l (log level v l s).1

-- the comparison of two bytes as signed numbers: one that is at least 128 is negative
abbrev pub is_negative : Level → Bool
is_negative l = leb 128 (l % 256)

unfoldable pub not_below : Level → Level → Bool
not_below min l = elim (is_negative min) [
  | true ↦ if is_negative l then leb (min % 256) (l % 256) else true
  | false ↦ if is_negative l then false else leb (min % 256) (l % 256)
]

enabled-not_below : (l min : Level) → enabled l min ≡ not_below min l
unfolding enabled not_below
enabled-not_below l min = ground arith

-- the records at or above the threshold that the last change before them set
unfoldable pub passing : Text → Level → List LogCall → List LogMessage
unfolding not_below
passing name min [] = []
passing name min (change level ∷ calls) = passing name level calls
passing name min (emission level v ∷ calls) =
    let rest = passing name min calls in
    if not_below min level
    then record { level = level; logger = name; log_data = v } ∷ rest
    else rest

abbrev pub deliver : {S : Type 0} → (LogMessage → S → S) → List LogMessage → S → S
deliver sink [] s = s
deliver sink (m ∷ ms) s = deliver sink ms (sink m s)

module _ {S : Type 0} where
  emit_if :
      (on : Bool) (sink : LogMessage → S → S) (m : LogMessage) (ms : List LogMessage) (s : S)
      → deliver sink ms (emit (some sink) on m s).1 ≡ deliver sink (if on then m ∷ ms else ms) s
  emit_if true sink m ms s = refl
  emit_if false sink m ms s = refl

  -- Through any changes of its threshold and any emissions, the sink of a Logger gets exactly the records
  -- whose level, as a signed byte, is at least the threshold of their time, in order, each with the
  -- logger's name.
  pub logger_passes :
      (name : Text) (min : Level) (sink : LogMessage → S → S) (calls : List LogCall) (s : S)
      → run_calls calls (new_logger name min (some sink)) s
        ≡ deliver sink (passing name min calls) s
  unfolding run_calls passing
  logger_passes name min sink [] s = refl
  logger_passes name min sink (change level ∷ calls) s = logger_passes name level sink calls s
  logger_passes name min sink (emission level v ∷ calls) s =
      logger_passes name min sink calls (log level v (new_logger name min (some sink)) s).1
      ∙ (emit_if (enabled level min) sink (record { level = level; logger = name; log_data = v })
            (passing name min calls) s
          ∙ rw (enabled-not_below level min) refl)

-- Between the eight levels, a level is enabled under a threshold exactly if it is not below it.
pub enabled_iff :
    (l min : Level) → is_valid l ≡ true → is_valid min ≡ true → (enabled l min ≡ true) ↔ (min ≤ l)
unfolding enabled
enabled_iff l min h k =
    let low : (l ≤ 7) × (min ≤ 7) = (ground arith, ground arith) in
    let a : biased l ≡ l + 128 = omega arith in
    let b : biased min ≡ min + 128 = omega arith in rw (a, b) (ground arith, ground arith)
