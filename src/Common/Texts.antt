-- ===== src/Common/Texts.antt =====
-- Texts that are put together from parts.
use Prim.Native.String.{String, ◌++◌ as text_append}
use mathlib.Core.List.{List, [], ◌∷◌}

abbrev pub text : List String → String
text [] = ""
text (part ∷ parts) = text_append part (text parts)
