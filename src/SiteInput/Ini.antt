-- ===== src/SiteInput/Ini.antt =====
-- The value inside fastcgi_param PHP_VALUE "...".
use sigarda_panel.Common.{◌≡◌, ◌≢◌, [], ◌∷◌, ◌⊎◌}
use sigarda_panel.Text.{Text}

-- Every backslash is the first byte of the mark `\n`.
abbrev pub IsMarked : Text → Type 0
IsMarked [] = Unit
IsMarked (c ∷ []) = c ≢ 92
IsMarked (c ∷ d ∷ s) = ((c ≡ 92) × (d ≡ b'n') × IsMarked s) ⊎ ((c ≢ 92) × IsMarked (d ∷ s))
