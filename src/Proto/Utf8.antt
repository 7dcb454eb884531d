-- ===== src/Proto/Utf8.antt =====
-- `String::from_utf8_lossy` of the standard library, as crates/dhcp-proto/src/option.rs uses it for
-- the text options.
use ndhcpd.Common.{
  ℕ, zero, suc, ◌≤◌, ◌<◌, ◌≡◌, refl, Bool, ◌⊎◌, ◌&&◌, List, [], ◌∷◌, ◌++◌, arith, ltb, leb, ◌==◌,
  if◌then◌else◌,
}

-- U+FFFD in UTF-8.
abbrev pub replacement : List ℕ
replacement = 0xef ∷ 0xbf ∷ 0xbd ∷ []

-- What has been read of the current character: nothing, or the bytes `seen`, with a next byte
-- wanted from `lo` to `hi` and `more` continuation bytes after it.
pub data Pending : Type 0 where
  idle : Pending
  want : List ℕ → ℕ → ℕ → ℕ → Pending

within : ℕ → ℕ → ℕ → Bool
within lo hi b = leb lo b && leb b hi

-- A byte at the start of a character: what is written, and what is pending.
lead : ℕ → List ℕ × Pending
unfolding within
lead b =
    if ltb b 0x80
    then (b ∷ [], idle)
    else if within 0xc2 0xdf b
    then ([], want (b ∷ []) 0x80 0xbf 0)
    else if b == 0xe0
    then ([], want (b ∷ []) 0xa0 0xbf 1)
    else if within 0xe1 0xec b
    then ([], want (b ∷ []) 0x80 0xbf 1)
    else if b == 0xed
    then ([], want (b ∷ []) 0x80 0x9f 1)
    else if within 0xee 0xef b
    then ([], want (b ∷ []) 0x80 0xbf 1)
    else if b == 0xf0
    then ([], want (b ∷ []) 0x90 0xbf 2)
    else if within 0xf1 0xf3 b
    then ([], want (b ∷ []) 0x80 0xbf 2)
    else if b == 0xf4
    then ([], want (b ∷ []) 0x80 0x8f 2)
    else (replacement, idle)

-- A byte that does not continue the character ends it as invalid, and starts the next one.
restart : List ℕ × Pending → List ℕ × Pending
restart (out, st) = (replacement ++ out, st)

step : Pending → ℕ → List ℕ × Pending
unfolding lead within restart
step idle b = lead b
step (want seen lo hi zero) b =
    if within lo hi b then (seen ++ (b ∷ []), idle) else restart (lead b)
step (want seen lo hi (suc more)) b =
    if within lo hi b then ([], want (seen ++ (b ∷ [])) 0x80 0xbf more) else restart (lead b)

flush : Pending → List ℕ
flush idle = []
flush (want seen lo hi more) = replacement

decode : Pending → List ℕ → List ℕ
unfolding step flush
decode st [] = flush st
decode st (b ∷ bs) = let (out, st') = step st b in out ++ decode st' bs

pub from_utf8_lossy : List ℕ → List ℕ
unfolding decode
from_utf8_lossy bs = decode idle bs

-- The texts that are valid UTF-8, character by character (Unicode, table 3-7).
pub data IsUtf8 : List ℕ → Type 0 where
  nil : IsUtf8 []
  one : {a : ℕ} {bs : List ℕ} → a < 0x80 → IsUtf8 bs → IsUtf8 (a ∷ bs)
  two :
      {a b : ℕ} {bs : List ℕ}
      → (0xc2 ≤ a) × (a ≤ 0xdf)
      → (0x80 ≤ b) × (b ≤ 0xbf)
      → IsUtf8 bs
      → IsUtf8 (a ∷ b ∷ bs)
  three :
      {a b c : ℕ} {bs : List ℕ}
      → (0xe1 ≤ a) × (a ≤ 0xec)
        ⊎ (0xee ≤ a) × (a ≤ 0xef)
        ⊎ (a ≡ 0xe0) × (0xa0 ≤ b)
        ⊎ (a ≡ 0xed) × (b ≤ 0x9f)
      → (0x80 ≤ b) × (b ≤ 0xbf)
      → (0x80 ≤ c) × (c ≤ 0xbf)
      → IsUtf8 bs
      → IsUtf8 (a ∷ b ∷ c ∷ bs)
  four :
      {a b c d : ℕ} {bs : List ℕ}
      → (0xf1 ≤ a) × (a ≤ 0xf3) ⊎ (a ≡ 0xf0) × (0x90 ≤ b) ⊎ (a ≡ 0xf4) × (b ≤ 0x8f)
      → (0x80 ≤ b) × (b ≤ 0xbf)
      → (0x80 ≤ c) × (c ≤ 0xbf)
      → (0x80 ≤ d) × (d ≤ 0xbf)
      → IsUtf8 bs
      → IsUtf8 (a ∷ b ∷ c ∷ d ∷ bs)

-- Valid text is kept as it is.
pub from_utf8_lossy-valid : (bs : List ℕ) → IsUtf8 bs → from_utf8_lossy bs ≡ bs
unfolding from_utf8_lossy
from_utf8_lossy-valid _ nil = refl
from_utf8_lossy-valid (a ∷ bs) (one h u) = ground (arith, from_utf8_lossy-valid bs u)
from_utf8_lossy-valid (a ∷ b ∷ bs) (two h k u) = ground (arith, from_utf8_lossy-valid bs u)
from_utf8_lossy-valid (a ∷ b ∷ c ∷ bs) (three h k l u) = ground (arith, from_utf8_lossy-valid bs u)
from_utf8_lossy-valid (a ∷ b ∷ c ∷ d ∷ bs) (four h k l m u) =
    ground (arith, from_utf8_lossy-valid bs u)
