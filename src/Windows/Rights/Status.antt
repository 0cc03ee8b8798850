-- ===== src/Windows/Rights/Status.antt =====
-- What a message tells of a status.
use Prim.Native.Nat.{◌%◌, ◌^◌}
use termcp_relay.Prelude.{
  ◌≡◌, sym, ap, ◌∙◌, inl, inr, ℕ, List, [], ◌∷◌, ◌++◌, Text, codes, ◌==◌, ◌<◌, arith, Bool-cases,
}
use termcp_relay.Strings.{hexadecimal, hex_value_from, value-hexadecimal}
use termcp_relay.Windows.Rights.{lsa_status}

append-cancel {ℓ} : {A : Type ℓ} (p xs ys : List A) → p ++ xs ≡ p ++ ys → xs ≡ ys
append-cancel [] xs ys h = h
append-cancel (x ∷ p) xs ys h = append-cancel p xs ys (ground arith)

hexadecimal-injective : (a b : ℕ) → a < 2 ^ 32 → b < 2 ^ 32 → hexadecimal a ≡ hexadecimal b → a ≡ b
hexadecimal-injective a b ha hb h =
    sym (value-hexadecimal a ha) ∙ ap (hex_value_from 0) h ∙ value-hexadecimal b hb

-- How the text of a status came about.
data Reads (s : ℕ) : Text → Type 0 where
  no_such_user : s % 2 ^ 32 ≡ 0xc0000064 → Reads s (codes "STATUS_NO_SUCH_USER (0xC0000064)")
  access_denied :
      s % 2 ^ 32 ≡ 0xc0000022
      → Reads s (codes "STATUS_ACCESS_DENIED (0xC0000022) — run as Administrator")
  numbered : Reads s (codes "NTSTATUS 0x" ++ hexadecimal (s % 2 ^ 32))

lsa_status-Reads : (s : ℕ) → Reads s (lsa_status s)
unfolding lsa_status
lsa_status-Reads s = elim (Bool-cases (s % 2 ^ 32 == 0xc0000064)) [
  | inl user ↦ rw user (no_such_user (ground arith))
  | inr other ↦ elim (Bool-cases (s % 2 ^ 32 == 0xc0000022)) [
    | inl denied ↦ rw (other, denied) (access_denied (ground arith))
    | inr number ↦ rw (other, number) numbered
  ]
]

Reads-injective : (s t : ℕ) (a b : Text) → Reads s a → Reads t b → a ≡ b → s % 2 ^ 32 ≡ t % 2 ^ 32
Reads-injective s t a b (no_such_user e) (no_such_user e') h = e ∙ sym e'
Reads-injective s t a b (access_denied e) (access_denied e') h = e ∙ sym e'
Reads-injective s t a b numbered numbered h =
    hexadecimal-injective (s % 2 ^ 32) (t % 2 ^ 32) (omega arith) (omega arith)
      (append-cancel (codes "NTSTATUS 0x") _ _ h)
Reads-injective s t a b _ _ h = absurd (ground arith)

-- The text of a status tells the status, as far as 32 bits go: no two statuses read alike.
pub lsa_status-injective : (s t : ℕ) → lsa_status s ≡ lsa_status t → s % 2 ^ 32 ≡ t % 2 ^ 32
lsa_status-injective s t h = Reads-injective s t _ _ (lsa_status-Reads s) (lsa_status-Reads t) h
