-- ===== src/Parsing/Interface.antt =====
-- src/parsing/parser.rs: the parsers of keys as the runtime calls them.
use map2_legacy.Base.{Option, none, some, Text}
use map2_legacy.Parsing.Nom.{E, Libraries}
use map2_legacy.Parsing.KeyParsers.{to_option, key_action_with_flags, key_sequence}
use map2_legacy.Runtime.Host.{KeyParser}

-- What is parsed, before what is left, without the error that is kept.
abbrev pub value_first : {A : Type 0} → Option (Text × (A × Option E)) → Option (A × Text)
value_first none = none
value_first (some (rest, (a, _))) = some (a, rest)

unfoldable pub key_parser : Libraries → KeyParser
unfolding key_sequence key_action_with_flags
key_parser lib = record {
  key_sequence = λ s. value_first (to_option (key_sequence lib s));
  key_action_with_flags = λ s. value_first (to_option (key_action_with_flags lib s));
}
