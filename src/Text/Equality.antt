-- ===== src/Text/Equality.antt =====
-- Equality of texts.
use sigarda_panel.Common.{true, ◌≡◌, refl, ◌↔◌, [], ◌∷◌, arith}
use sigarda_panel.Text.{Text, eqb}

eqb→eq : (s t : Text) → eqb s t ≡ true → s ≡ t
unfolding eqb
eqb→eq [] [] h = refl
eqb→eq (c ∷ s) (d ∷ t) h = ground (arith, eqb→eq s t)
eqb→eq [] (d ∷ t) h = cc
eqb→eq (c ∷ s) [] h = cc

pub eqb_self : (s : Text) → eqb s s ≡ true
unfolding eqb
eqb_self [] = refl
eqb_self (c ∷ s) = ground (arith, eqb_self s)

-- The Boolean test decides equality.
pub eqb_iff : (s t : Text) → (eqb s t ≡ true) ↔ (s ≡ t)
eqb_iff s t = (eqb→eq s t, λ e. rw e (eqb_self t))
