-- ===== src/RecordSort/Files/Bytes.antt =====
-- Bytes of a file of lab2/zad1/src/bubble_sorter.c that are read after a write.
use sysopy.Common.{
  ℕ, zero, suc, ◌+◌, ◌≤◌, ◌<◌, ◌≡◌, ◌≢◌, ◌⊎◌, inl, inr, refl, List, [], ◌∷◌, length, arith, ap, ◌∙◌,
}
use sysopy.Common.Family.{update, update-here, update-apart}
use sysopy.RecordSort.Files.{window, overlay}

pub length-window : (content : ℕ → ℕ) (from count : ℕ) → length (window content from count) ≡ count
unfolding window
length-window content from zero = refl
length-window content from (suc count) = ground (arith, length-window content (from + 1) count)

overlay-outside :
    (content : ℕ → ℕ) (from : ℕ) (bs : List ℕ) (i : ℕ)
    → (i < from) ⊎ (from + length bs ≤ i)
    → overlay content from bs i ≡ content i
unfolding overlay
overlay-outside content from [] i out = refl
overlay-outside content from (b ∷ bs) i out =
    overlay-outside (update content from b) (from + 1) bs i (further out)
    ∙ update-apart content from b (apart out)
  where
    further :
        (i < from) ⊎ (from + length (b ∷ bs) ≤ i) → (i < from + 1) ⊎ (from + 1 + length bs ≤ i)
    further (inl below) = inl (omega arith)
    further (inr above) = inr (omega arith)

    apart : (i < from) ⊎ (from + length (b ∷ bs) ≤ i) → from ≢ i
    apart (inl below) = omega arith
    apart (inr above) = omega arith

window_congr :
    (c d : ℕ → ℕ) (from count : ℕ)
    → ((i : ℕ) → from ≤ i → i < from + count → c i ≡ d i)
    → window c from count ≡ window d from count
unfolding window
window_congr c d from zero same = refl
window_congr c d from (suc count) same =
    ap (λ b. b ∷ window c (from + 1) count) (same from (omega arith) (omega arith))
    ∙ ap (λ bs. d from ∷ bs)
        (window_congr c d (from + 1) count (λ i ge lt. same i (omega arith) (omega arith)))

-- What was written is read back.
pub window-overlay :
    (content : ℕ → ℕ) (from : ℕ) (bs : List ℕ) (count : ℕ)
    → length bs ≡ count
    → window (overlay content from bs) from count ≡ bs
unfolding window overlay
window-overlay content from [] zero e = refl
window-overlay content from [] (suc count) e = absurd (omega arith)
window-overlay content from (b ∷ bs) zero e = absurd (omega arith)
window-overlay content from (b ∷ bs) (suc count) e =
    ap (λ c. c ∷ window (overlay (update content from b) (from + 1) bs) (from + 1) count)
      (overlay-outside (update content from b) (from + 1) bs from (inl (omega arith))
        ∙ update-here content from b refl)
    ∙ ap (λ cs. b ∷ cs) (window-overlay (update content from b) (from + 1) bs count (omega arith))

-- A write elsewhere does not show.
pub window-overlay_apart :
    (content : ℕ → ℕ) (from : ℕ) (bs : List ℕ) (at count : ℕ)
    → (at + count ≤ from) ⊎ (from + length bs ≤ at)
    → window (overlay content from bs) at count ≡ window content at count
window-overlay_apart content from bs at count (inl below) =
    window_congr (overlay content from bs) content at count
      (λ i ge lt. overlay-outside content from bs i (inl (omega arith)))
window-overlay_apart content from bs at count (inr above) =
    window_congr (overlay content from bs) content at count
      (λ i ge lt. overlay-outside content from bs i (inr (omega arith)))
