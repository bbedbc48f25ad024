-- ===== src/Headers/Visible.antt =====
-- Values without white space are kept as they are.
use mathlib.Core.List.{reverse_aux, reverse, reverse-reverse}
use connect_es.Prelude.{◌≡◌, refl, ap, ◌∙◌, [], ◌∷◌, arith}
use connect_es.Prelude.Text.{Text}
use connect_es.Prelude.Text.Uri.Laws.{IsVisible}
use connect_es.Headers.{normalize_value, strip_start}

strip_start-IsVisible : (s : Text) → IsVisible s → strip_start s ≡ s
strip_start-IsVisible [] h = refl
strip_start-IsVisible (c ∷ s) (h, hs) = ground arith

reverse_aux-IsVisible : (s t : Text) → IsVisible s → IsVisible t → IsVisible (reverse_aux s t)
reverse_aux-IsVisible [] t hs ht = ht
reverse_aux-IsVisible (c ∷ s) t (h, hs) ht = reverse_aux-IsVisible s (c ∷ t) hs (h, ht)

pub normalize_value-IsVisible : (s : Text) → IsVisible s → normalize_value s ≡ s
normalize_value-IsVisible s h =
    ap (λ s. reverse (strip_start (reverse s))) (strip_start-IsVisible s h)
    ∙ ap reverse (strip_start-IsVisible (reverse s) (reverse_aux-IsVisible s [] h tt))
    ∙ reverse-reverse s
