-- ===== src/Tests/Cli.antt =====
-- Tests of clawpot-cli/src/commands/logs.rs.
use clawpot.Common.{replicate, none, codes, ◌≡◌, refl, Text, ◌++◌, [], ◌∷◌, text_eq}
use clawpot.Common.Bytes.{panic}
use clawpot.Cli.Logs.Summary.{own_summary, format_data_summary}
use clawpot.Cli.Logs.Summary.Compact.{Compacts, format_data_summary-Compacts}
use clawpot.Cli.Logs.Lines.{pad_right}
use clawpot.Tests.Jsons.{trees, string}

-- 76 bytes, and then characters of two bytes.
abbrev long : Text
long = replicate 76 b'a' ++ (195 ∷ 169 ∷ 195 ∷ 169 ∷ 195 ∷ 169 ∷ [])

no_own : own_summary trees (codes "server.started") (string long) ≡ none
unfolding own_summary text_eq
no_own = refl

-- The slice ends inside a character.
panics : format_data_summary trees (codes "server.started") (string long) ≡ panic
unfolding format_data_summary text_eq
panics = refl

format_data_summary-Compacts_example :
    Compacts long (format_data_summary trees (codes "server.started") (string long))
format_data_summary-Compacts_example =
    format_data_summary-Compacts trees (codes "server.started") (string long) long no_own refl

-- The width counts characters, not bytes.
padded : pad_right 3 (195 ∷ 169 ∷ []) ≡ 195 ∷ 169 ∷ 32 ∷ 32 ∷ []
unfolding pad_right
padded = refl
