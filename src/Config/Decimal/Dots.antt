-- ===== src/Config/Decimal/Dots.antt =====
-- The id that read_config_client of src-cpp/client/client.cc gives a request ends in a dot and the
-- request's number, so that the number can be read off.
use Prim.Native.Char.{code}
use Prim.Native.String.{◌++◌ as ◌<>◌}
use text.Mathlib.TextLemmas.{nil-append, cons-append, append_assoc as text_assoc}
use chain_replication.Base.{
  ℕ, pos, String, ◌≡◌, refl, sym, ap, ◌∙◌, false, arith, ◌==◌, if◌then◌else◌,
}
use chain_replication.Config.Decimal.{natural, to_string, is_digit}
use chain_replication.Config.Decimal.Digits.{natural_inj, AllDigits, natural-AllDigits}
use chain_replication.Config.Seeds.{joined}

-- What stands behind the last dot, or `acc` where there is none.
after_dot : String → String → String
after_dot acc String.[] = acc
after_dot acc (String.◌∷◌ c s) = after_dot (if code c == b'.' then s else acc) s

after_dot-digits : (acc s : String) → AllDigits s → after_dot acc s ≡ acc
unfolding after_dot is_digit
after_dot-digits acc String.[] h = refl
after_dot-digits acc (String.◌∷◌ c s) h =
    let other : (code c == b'.') ≡ false = ground (arith, h.0) in
    ap (λ t. after_dot (if t then s else acc) s) other ∙ after_dot-digits acc s h.1

after_dot-dot : (acc x s : String) → AllDigits s → after_dot acc ((x <> ".") <> s) ≡ s
unfolding after_dot
after_dot-dot acc String.[] s h =
    ap (after_dot acc) (cons-append "." "" s ∙ ap (String.◌∷◌ ".") (nil-append s))
    ∙ after_dot-digits s s h
after_dot-dot acc (String.◌∷◌ c x) s h =
    ap (after_dot acc) (ap (λ t. t <> s) (cons-append c x ".") ∙ cons-append c (x <> ".") s)
    ∙ after_dot-dot (if code c == b'.' then (x <> ".") <> s else acc) x s h

-- The ids of different numbers differ, whatever the banks and the clients.
pub joined_inj :
    (a b c d : String) (m n : ℕ)
    → joined a b (to_string (pos m)) ≡ joined c d (to_string (pos n))
    → m ≡ n
unfolding to_string
joined_inj a b c d m n e = natural_inj m n (sym (number a b m) ∙ ap (after_dot "") e ∙ number c d n)
  where
    number : (x y : String) (k : ℕ) → after_dot "" (joined x y (natural k)) ≡ natural k
    number x y k =
        ap (λ t. after_dot "" (t <> natural k)) (sym (text_assoc (x <> ".") y "."))
        ∙ after_dot-dot "" ((x <> ".") <> y) (natural k) (natural-AllDigits k)
