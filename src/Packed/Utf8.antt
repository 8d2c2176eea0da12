-- ===== src/Packed/Utf8.antt =====
-- Which byte strings Python's `bytes.decode("utf-8")` accepts (RFC 3629): a scan with the range
-- that the next byte must lie in and the number of continuation bytes after it.
use angr_ghidra_core.Prelude.{
  ap, ◌∙◌, ◌≢◌, Bool-cases, inl, inr, append_assoc, ℕ, zero, suc, ◌<◌, Bool, true, false, ◌&&◌, [],
  ◌∷◌, ◌++◌, ◌≡◌, refl, leb, ltb, ◌==◌, arith, All, if◌then◌else◌,
}
use angr_ghidra_core.Packed.{Bytes}
use angr_ghidra_core.Prelude.Result.{Result, ok, err, unicode_error}

-- `start` expects a first byte; `more lo hi n` a byte from `lo` to `hi`, then `n` from 0x80 to 0xbf.
pub data Scan : Type 0 where
  start bad : Scan
  more : ℕ → ℕ → ℕ → Scan

pub first_byte : ℕ → Scan
first_byte b =
    if ltb b 0x80
    then start
    else if ltb b 0xc2
    then bad
    else if ltb b 0xe0
    then more 0x80 0xbf 0
    else if b == 0xe0
    then more 0xa0 0xbf 1
    else if b == 0xed
    then more 0x80 0x9f 1
    else if ltb b 0xf0
    then more 0x80 0xbf 1
    else if b == 0xf0
    then more 0x90 0xbf 2
    else if ltb b 0xf4
    then more 0x80 0xbf 2
    else if b == 0xf4
    then more 0x80 0x8f 2
    else bad

abbrev next_more : ℕ → Scan
next_more zero = start
next_more (suc n) = more 0x80 0xbf n

pub scan_byte : Scan → ℕ → Scan
unfolding first_byte
scan_byte start b = first_byte b
scan_byte bad b = bad
scan_byte (more lo hi n) b = if leb lo b && leb b hi then next_more n else bad

abbrev is_start : Scan → Bool
is_start start = true
is_start _ = false

scan : Scan → Bytes → Bool
unfolding scan_byte
scan s [] = is_start s
scan s (b ∷ bs) = scan (scan_byte s b) bs

unfoldable pub is_utf8 : Bytes → Bool
unfolding scan
is_utf8 bs = scan start bs

-- `bytes.decode("utf-8")`: the same bytes, now a str, or UnicodeDecodeError.
unfoldable pub decode_utf8 : Bytes → Result Bytes
unfolding is_utf8
decode_utf8 bs = if is_utf8 bs then ok bs else err unicode_error

scan_ascii : (bs : Bytes) → All (λ b. b < 0x80) bs → scan start bs ≡ true
unfolding scan
scan_ascii [] h = refl
scan_ascii (b ∷ bs) h = ground (arith, scan_ascii bs h.1)

-- ASCII is UTF-8.
pub is_utf8_ascii : (bs : Bytes) → All (λ b. b < 0x80) bs → is_utf8 bs ≡ true
unfolding is_utf8
is_utf8_ascii bs h = scan_ascii bs h

-- U+FFFD, the replacement character.
abbrev pub replacement : Bytes
replacement = 0xef ∷ 0xbf ∷ 0xbd ∷ []

-- `bytes.decode("utf-8", "replace")`: each longest start of a character that is not finished, and
-- each byte that starts none, is replaced. `pending` holds the bytes of the character being read.
abbrev started : Scan → ℕ → Bytes → Bytes
started start b rest = b ∷ rest
started bad b rest = replacement ++ rest
started (more lo hi n) b rest = rest

replace_from : Scan → Bytes → Bytes → Bytes
unfolding scan_byte first_byte
replace_from start pending [] = []
replace_from bad pending [] = []
replace_from (more lo hi n) pending [] = replacement
replace_from (more lo hi n) pending (b ∷ bs) =
    let starts = started (first_byte b) b (replace_from (first_byte b) (b ∷ []) bs) in
    let continues = replace_from (next_more n) (pending ++ b ∷ []) bs in
    if leb lo b && leb b hi
    then elim n [ zero ↦ pending ++ b ∷ continues | suc m ↦ continues ]
    else replacement ++ starts
replace_from _ pending (b ∷ bs) = started (first_byte b) b (replace_from (first_byte b) (b ∷ []) bs)

unfoldable pub decode_replace : Bytes → Bytes
unfolding replace_from
decode_replace bs = replace_from start [] bs

scan_bad : (bs : Bytes) → scan bad bs ≢ true
unfolding scan
scan_bad [] h = cc h
scan_bad (b ∷ bs) h = scan_bad bs h

-- What `replace_from` does of a text, from each state.
abbrev copies : Scan → Bytes → Bytes → Bytes
copies (more lo hi n) pending bs = pending ++ bs
copies _ pending bs = bs

started-copies :
    (s : Scan) (b : ℕ) (bs : Bytes)
    → scan s bs ≡ true
    → replace_from s (b ∷ []) bs ≡ copies s (b ∷ []) bs
    → started s b (replace_from s (b ∷ []) bs) ≡ b ∷ bs
started-copies start b bs h later = ap (λ t. b ∷ t) later
started-copies bad b bs h later = absurd (scan_bad bs h)
started-copies (more lo hi n) b bs h later = later

continued :
    (n : ℕ) (pending : Bytes) (b : ℕ) (bs : Bytes)
    → replace_from (next_more n) (pending ++ b ∷ []) bs
      ≡ copies (next_more n) (pending ++ b ∷ []) bs
    → (elim n as (λ n. Bytes) [
      | zero ↦ pending ++ b ∷ replace_from (next_more n) (pending ++ b ∷ []) bs
      | suc m ↦ replace_from (next_more n) (pending ++ b ∷ []) bs
    ])
      ≡ pending ++ b ∷ bs
continued zero pending b bs later = ap (λ t. pending ++ b ∷ t) later
continued (suc n) pending b bs later = later ∙ append_assoc pending (b ∷ []) bs

replace_from-scan :
    (s : Scan) (pending bs : Bytes)
    → scan s bs ≡ true
    → replace_from s pending bs ≡ copies s pending bs
unfolding scan replace_from
replace_from-scan start pending [] h = refl
replace_from-scan bad pending [] h = refl
replace_from-scan (more lo hi n) pending [] h = cc h
replace_from-scan start pending (b ∷ bs) h =
    started-copies (first_byte b) b bs h (replace_from-scan (first_byte b) (b ∷ []) bs h)
replace_from-scan bad pending (b ∷ bs) h = absurd (scan_bad bs h)
replace_from-scan (more lo hi n) pending (b ∷ bs) h = elim (Bool-cases (leb lo b && leb b hi)) [
  | inr off ↦ absurd (scan_bad bs (rw off at h))
  | inl on ↦
      let later = replace_from-scan (next_more n) (pending ++ b ∷ []) bs (rw on at h) in
      rw on (continued n pending b bs later)
]

-- Replacing leaves a UTF-8 text as it is.
pub decode_replace-utf8 : (bs : Bytes) → is_utf8 bs ≡ true → decode_replace bs ≡ bs
unfolding is_utf8 decode_replace
decode_replace-utf8 bs h = replace_from-scan start [] bs h
