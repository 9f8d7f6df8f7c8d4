-- ===== src/Ctl/Spelled.antt =====
-- Flags of cmd/remediation-ctl/main.go with their values, each written in a style of its own.
use autonomous_remediation_e.Prelude.{
  ◌≡◌, refl, ap, ◌∙◌, sym, Bool, true, false, String, List, [], ◌∷◌, none, Bytes, codes, All,
}
use mathlib.Core.List.{append-nil}
use autonomous_remediation_e.Ctl.Flags.{Flag, text, got, parse_flags, put_flag}
use autonomous_remediation_e.Ctl.Flags.RoundTrip.{
  Setting, joined, apart, write_settings, put_settings, Fits, parse_flags-write_settings,
}

pub whole_line :
    (ss : List (Bool × Setting)) (fs : List Flag)
    → All (Fits fs) ss
    → parse_flags none (write_settings ss) fs ≡ got (put_settings ss fs)
unfolding parse_flags
whole_line ss fs fits =
    ap (λ args. parse_flags none args fs) (sym (append-nil (write_settings ss)))
    ∙ parse_flags-write_settings ss [] fs fits

-- How an argument is written: with two dashes or one, joined to its value or before it.
abbrev pub Style : Type 0
Style = Bool × Bool

abbrev pub spelled : Style → String → Bytes → Bool × Setting
spelled (two, true) name v = (two, joined (codes name) v)
spelled (two, false) name v = (two, apart (codes name) v)

-- Flags with their values, each in the style of its name.
abbrev pub spelled_all : (String → Style) → List (String × Bytes) → List (Bool × Setting)
spelled_all style [] = []
spelled_all style ((name, v) ∷ values) = spelled (style name) name v ∷ spelled_all style values

abbrev pub put_all : List (String × Bytes) → List Flag → List Flag
put_all [] fs = fs
put_all ((name, v) ∷ values) fs = put_all values (put_flag (codes name) (text v) fs)

-- The flags are texts of the command.
abbrev pub AreTexts : List Flag → List (String × Bytes) → Type 0
AreTexts fs [] = Unit
AreTexts fs ((name, v) ∷ values) = Fits fs (true, joined (codes name) v) × AreTexts fs values

spelled-put :
    (s : Style) (name : String) (v : Bytes) (ss : List (Bool × Setting)) (fs : List Flag)
    → put_settings (spelled s name v ∷ ss) fs ≡ put_settings ss (put_flag (codes name) (text v) fs)
unfolding put_settings
spelled-put (two, true) name v ss fs = refl
spelled-put (two, false) name v ss fs = refl

pub spelled-put_all :
    (style : String → Style) (values : List (String × Bytes)) (fs : List Flag)
    → put_settings (spelled_all style values) fs ≡ put_all values fs
unfolding put_settings
spelled-put_all style [] fs = refl
spelled-put_all style ((name, v) ∷ values) fs =
    spelled-put (style name) name v (spelled_all style values) fs
    ∙ spelled-put_all style values (put_flag (codes name) (text v) fs)

pub spelled_all-Fits :
    (style : String → Style) (values : List (String × Bytes)) (fs : List Flag)
    → AreTexts fs values
    → All (Fits fs) (spelled_all style values)
unfolding Fits
spelled_all-Fits style [] fs h = tt
spelled_all-Fits style ((name, v) ∷ values) fs (fits, h) =
    (one (style name), spelled_all-Fits style values fs h)
  where
    one : (s : Style) → Fits fs (spelled s name v)
    one (two, true) = fits
    one (two, false) = fits
