-- ===== src/Utils/Logging.antt =====
-- src/utils/logging.cpp: `getLogger`, which makes a logger the first time that its name is asked for
-- and keeps it in the static map `loggers`. Whether a log file can be opened is a parameter; where it
-- cannot, spdlog throws, and the result is `none`.
use text.Mathlib.Text.{◌==◌}
use text.Mathlib.TextEquality.{eq_iff}
use tpfaas.Base.{
  ◌≢◌, ◌≡◌, refl, Bool, true, false, not, String, List, [], ◌∷◌, Option, none, some, if◌then◌else◌,
  arith, Bool-cases, inl, inr, Option-cases,
}
use tpfaas.Utils.Config.{SystemConfig}

-- The levels of spdlog that the code sets.
pub data Level : Type 0 where
  info debug trace off : Level

pub record Logger : Type 0 where
  pub name : String
  -- whether it writes to a file beside the standard output
  pub to_file : Bool
  pub level : Level

abbrev pub Loggers : Type 0
Loggers = List (String × Logger)

-- The level for the setting `logLevel`.
unfoldable pub level_of : String → Level
level_of s =
    if s == "info"
    then Level.info
    else if s == "debug"
    then Level.debug
    else if s == "trace"
    then Level.trace
    else Level.off

-- `loggers.count(name)` and `loggers[name]`
unfoldable pub find_logger : Loggers → String → Option Logger
find_logger [] name = none
find_logger ((key, l) ∷ rest) name =
    let more = find_logger rest name in if key == name then some l else more

text_same : (s : String) → (s == s) ≡ true
text_same s = (eq_iff s s).1 refl

text_apart : (s t : String) → s ≢ t → (s == t) ≡ false
text_apart s t apart = elim (Bool-cases (s == t)) [
  | inl same ↦ absurd (apart ((eq_iff s t).0 same))
  | inr other ↦ other
]

module _ (can_open : String → Bool) where
  -- What stands in the `try` block.
  unfoldable pub new_logger : SystemConfig → String → Option Logger
  new_logger conf name =
      let file = not (conf.log_file == "off") in
      let l : Logger = record { name = name; to_file = file; level = level_of conf.log_level } in
      if file then (if can_open name then some l else none) else some l

  -- `getLogger`: the logger and the map
  unfoldable pub get_logger : SystemConfig → Loggers → String → Option (Logger × Loggers)
  get_logger conf loggers name = elim (find_logger loggers name) [
    | some l ↦ some (l, loggers)
    | none ↦ elim (new_logger conf name) [ some l ↦ some (l, (name, l) ∷ loggers) | none ↦ none ]
  ]

  -- A logger is made once: where `getLogger` has given one, it gives the same again under any
  -- settings, and changes nothing. The loggers of other names are not touched.
  pub get_logger_once :
      (conf later : SystemConfig) (loggers loggers1 : Loggers) (name other : String) (l : Logger)
      → name ≢ other
      → get_logger conf loggers name ≡ some (l, loggers1)
      → (get_logger later loggers1 name ≡ some (l, loggers1))
        × (find_logger loggers1 other ≡ find_logger loggers other)
  unfolding get_logger find_logger
  get_logger_once conf later loggers loggers1 name other l apart e =
      elim (Option-cases (find_logger loggers name)) [
        | inr (old, there) ↦ ground (arith, there)
        | inl new ↦ elim (Option-cases (new_logger conf name)) [
          | inl fails ↦ absurd (ground (arith, new, fails))
          | inr (made, works) ↦
              ground (arith, new, works, text_same name, text_apart name other apart)
        ]
      ]
