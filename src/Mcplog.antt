-- ===== src/Mcplog.antt =====
-- mcplog/mcplog.go: severity levels and the filtering logger. A Level is an int8; the eight levels are
-- 0 to 7, and a value is its 8 bits, so that 128 to 255 stand for -128 to -1.
pub mod Names
pub mod Filter
use fastmcp.Prelude.{
  ℕ, zero, suc, ◌+◌, ◌-◌, ◌%◌, ◌^◌, ◌<◌, Text, txt, text_eq, length, take, drop, is_empty, Bool,
  true, false, ◌&&◌, ◌||◌, not, List, [], ◌∷◌, ◌++◌, Option, none, some, Result, done, failed,
  if◌then◌else◌, ltb, leb, ◌==◌,
}
use fastmcp.Prelude.Int.{ℤ, pos, negsuc}
use fastmcp.Rpc.{Value}

-- the bit pattern of an int8
abbrev pub Level : Type 0
Level = ℕ

abbrev pub debug : Level
debug = 0

abbrev pub emergency : Level
emergency = 7

-- the number that the bits stand for
abbrev pub signed : Level → ℤ
signed l = if ltb l 128 then pos l else negsuc (255 - l)

abbrev pub level_names : List Text
level_names =
    txt "debug"
    ∷ txt "info"
    ∷ txt "notice"
    ∷ txt "warning"
    ∷ txt "error"
    ∷ txt "critical"
    ∷ txt "alert"
    ∷ txt "emergency"
    ∷ []

-- l >= Debug && l <= Emergency, on bit patterns
abbrev pub is_valid : Level → Bool
is_valid l = leb l emergency

abbrev pub name_at : List Text → ℕ → Text
name_at [] n = []
name_at (name ∷ ns) zero = name
name_at (name ∷ ns) (suc n) = name_at ns n

-- Level.String
unfoldable pub level_string : Level → Text
level_string l = if is_valid l then name_at level_names l else txt "unknown"

-- int(Emergency - l): the difference wraps around in 8 bits
unfoldable pub severity : Level → ℤ
severity l = signed ((emergency + 256 - l) % 256)

-- l >= min, of signed numbers
abbrev pub biased : Level → ℕ
biased l = (l + 128) % 256

unfoldable pub enabled : Level → Level → Bool
enabled l min = leb (biased min) (biased l)

abbrev pub lower_byte : ℕ → ℕ
lower_byte c = if leb b'A' c && leb c b'Z' then c + 32 else c

unfoldable pub to_lower_ascii : Text → Text
to_lower_ascii [] = []
to_lower_ascii (c ∷ s) = lower_byte c ∷ to_lower_ascii s

-- the loop of ParseLevel: the index of a name
unfoldable pub index_of : Text → List Text → ℕ → Option Level
index_of lower [] i = none
index_of lower (n ∷ ns) i = if text_eq n lower then some i else index_of lower ns (i + 1)

-- ParseLevel
unfoldable pub parse_level : Text → Option Level
unfolding to_lower_ascii index_of
parse_level name = index_of (to_lower_ascii name) level_names 0

-- MarshalJSON and UnmarshalJSON
unfoldable pub marshal_level : Level → Result Text
unfolding level_string
marshal_level l =
    if is_valid l
    then done (b'"' ∷ level_string l ++ b'"' ∷ [])
    else failed (txt "mcplog: invalid level")

-- `len(data) < 2 || data[0] != '"' || data[len(data)-1] != '"'`, and else the text in between
unfoldable pub before_quote : Text → Option Text
before_quote [] = none
before_quote (c ∷ []) = if c == b'"' then some [] else none
before_quote (c ∷ d ∷ s) = elim (before_quote (d ∷ s)) [ none ↦ none | some t ↦ some (c ∷ t) ]

abbrev pub unquoted : Text → Option Text
unquoted [] = none
unquoted (c ∷ s) = if c == b'"' then before_quote s else none

abbrev pub or_unknown_level : Option Level → Result Level
or_unknown_level none = failed (txt "mcplog: unknown level")
or_unknown_level (some l) = done l

unfoldable pub unmarshal_level : Text → Result Level
unfolding parse_level before_quote
unmarshal_level json = elim (unquoted json) [
  | none ↦ failed (txt "mcplog: level must be a JSON string")
  | some name ↦ or_unknown_level (parse_level name)
]

-- LevelFromSeverity clamps to 0 .. 7
unfoldable pub level_from_severity : ℤ → Level
level_from_severity (negsuc n) = emergency
level_from_severity (pos n) = if ltb 7 n then 0 else emergency - n

abbrev pub all_levels : List Level
all_levels = 0 ∷ 1 ∷ 2 ∷ 3 ∷ 4 ∷ 5 ∷ 6 ∷ 7 ∷ []

pub record LogMessage : Type 0 where
  pub level : Level
  pub logger : Text
  pub log_data : Value

-- A Logger; `sink` is what a record does to a state of the caller's, or nil.
pub record Logger (S : Type 0) : Type 0 where
  pub min : Level
  pub name : Text
  pub sink : Option (LogMessage → S → S)

module _ {S : Type 0} where
  abbrev pub new_logger : Text → Level → Option (LogMessage → S → S) → Logger S
  new_logger name min sink = record { min = min; name = name; sink = sink }

  unfoldable pub set_level : Level → Logger S → Logger S
  set_level min l = record l { min = min }

  unfoldable pub logger_enabled : Level → Logger S → Bool
  unfolding enabled
  logger_enabled level l = enabled level l.min

  abbrev pub emit : Option (LogMessage → S → S) → Bool → LogMessage → S → Bool × S
  emit none on m s = (false, s)
  emit (some f) on m s = if on then (true, f m s) else (false, s)

  -- Logger.Log; Debug, Info and the others fix the level
  unfoldable pub log : Level → Value → Logger S → S → Bool × S
  unfolding enabled
  log level v l s =
      emit l.sink (enabled level l.min) (record { level = level; logger = l.name; log_data = v }) s
