-- ===== src/Memory/Parse/Printed.antt =====
-- memory.go: `parseNvidiaSmi` on the report that nvidia-smi prints for a list of devices.
use v_llm_orchestrator.Base.{
  ℕ, pos, ℤ, ◌+◌, ◌<◌, eqb_ℤ, Bool-cases, false, inl, inr, List, [], ◌∷◌, ◌++◌, some, All, length,
  length-append, ◌≡◌, ◌≢◌, refl, ◌∙◌, ap, arith, if◌then◌else◌,
}
use v_llm_orchestrator.Base.Result.{Result, failed, succeeded}
use v_llm_orchestrator.Memory.Parse.{
  ParseError, no_gpu_entries, is_empty, is_space, Text, newline, comma, split_lines, scanned,
  trim_left, trim_right, trim_space, split_comma, parse_int, Devices, put_device, parse_row,
  parse_rows, parse_nvidia_smi,
}
use v_llm_orchestrator.Memory.Parse.Numerals.{
  numeral, IsDigit, Fits, ltb_iff, numeral-digits, numeral-length, parse_int-numeral,
}

abbrev pub row_text : ℕ × ℕ → Text
row_text (dev, mb) = numeral dev ++ comma ∷ 32 ∷ numeral mb

-- A line for each device.
abbrev pub report : List (ℕ × ℕ) → Text
report [] = []
report (row ∷ rest) = row_text row ++ newline ∷ report rest

abbrev pub put_all : Devices → List (ℕ × ℕ) → Devices
put_all m [] = m
put_all m ((dev, mb) ∷ rest) = put_all (put_device (pos dev) (pos mb) m) rest

-- Digits are no white space, no comma and no newline.
trim_left-digit : (c : ℕ) (s : Text) → IsDigit c → trim_left (c ∷ s) ≡ c ∷ s
unfolding trim_left
trim_left-digit c s (low, high) = ground arith

trim_right-digits : (s : Text) → All IsDigit s → trim_right s ≡ s
unfolding trim_right
trim_right-digits [] h = refl
trim_right-digits (c ∷ cs) ((low, high), h) = rw (trim_right-digits cs h) (go cs)
  where
    go :
        (t : Text)
        → (elim t [ [] ↦ if is_space c then [] else c ∷ [] | d ∷ ds ↦ c ∷ d ∷ ds ]) ≡ c ∷ t
    go [] = ground arith
    go (d ∷ ds) = refl

-- What ends in a text that is left as it is, and not empty, is left as it is.
trim_right-append :
    (xs ys : Text) → 0 < length ys → trim_right ys ≡ ys → trim_right (xs ++ ys) ≡ xs ++ ys
unfolding trim_right
trim_right-append [] ys h k = k
trim_right-append (x ∷ xs) ys h k = rw (trim_right-append xs ys h k) (go xs)
  where
    go :
        (s : Text)
        → (elim (s ++ ys) [ [] ↦ if is_space x then [] else x ∷ [] | d ∷ ds ↦ x ∷ d ∷ ds ])
          ≡ x ∷ (s ++ ys)
    go [] = end ys h
      where
        end :
            (t : Text)
            → 0 < length t
            → (elim t [ [] ↦ if is_space x then [] else x ∷ [] | d ∷ ds ↦ x ∷ d ∷ ds ]) ≡ x ∷ t
        end [] h = absurd (omega arith)
        end (d ∷ ds) h = refl
    go (d ∷ ds) = refl

split_comma-digits :
    (s rest : Text) → All IsDigit s → split_comma (s ++ comma ∷ rest) ≡ some (s, rest)
unfolding split_comma
split_comma-digits [] rest h = refl
split_comma-digits (c ∷ cs) rest ((low, high), h) = rw (split_comma-digits cs rest h) (ground arith)

abbrev IsInLine : ℕ → Type 0
IsInLine c = c ≢ newline

split_lines-line :
    (l rest : Text) → All IsInLine l → split_lines (l ++ newline ∷ rest) ≡ l ∷ split_lines rest
unfolding split_lines
split_lines-line [] rest h = refl
split_lines-line (c ∷ cs) rest (other, h) = rw (split_lines-line cs rest h) (ground arith)

trim_left-digits :
    (s rest : Text) → All IsDigit s → 0 < length s → trim_left (s ++ rest) ≡ s ++ rest
trim_left-digits [] rest h k = absurd (omega arith)
trim_left-digits (c ∷ cs) rest (d, h) k = trim_left-digit c (cs ++ rest) d

trim_space-digits : (s : Text) → All IsDigit s → trim_space s ≡ s
unfolding trim_space trim_left
trim_space-digits [] h = unfold trim_right in refl
trim_space-digits (c ∷ cs) (d, h) =
    ap trim_right (trim_left-digit c cs d) ∙ trim_right-digits (c ∷ cs) (d, h)

All-map {ℓ κ} :
    {A : Type ℓ} {P Q : A → Type κ} (l : List A) → ((a : A) → P a → Q a) → All P l → All Q l
All-map [] f h = tt
All-map (x ∷ xs) f (p, h) = (f x p, All-map xs f h)

All-append {ℓ κ} :
    {A : Type ℓ} (P : A → Type κ) (xs ys : List A) → All P xs → All P ys → All P (xs ++ ys)
All-append P [] ys h k = k
All-append P (x ∷ xs) ys (p, h) k = (p, All-append P xs ys h k)

-- A line of the report: two texts of digits.
module _ (s t : Text) (ds : All IsDigit s) (dt : All IsDigit t) (some_s : 0 < length s)
    (some_t : 0 < length t) where
  abbrev line : Text
  line = s ++ comma ∷ 32 ∷ t

  line-trimmed : trim_space line ≡ line
  unfolding trim_space
  line-trimmed =
      ap trim_right (trim_left-digits s (comma ∷ 32 ∷ t) ds some_s)
      ∙ trim_right-append s (comma ∷ 32 ∷ t) (omega arith)
          (trim_right-append (comma ∷ 32 ∷ []) t some_t (trim_right-digits t dt))

  line-nonempty : is_empty line ≡ false
  line-nonempty = go s some_s
    where
      go : (r : Text) → 0 < length r → is_empty (r ++ comma ∷ 32 ∷ t) ≡ false
      go [] h = absurd (omega arith)
      go (c ∷ cs) h = refl

  line-IsInLine : All IsInLine line
  line-IsInLine =
      All-append IsInLine s (comma ∷ 32 ∷ t) (All-map s other ds)
        ((λ e. omega (arith, e)), ((λ e. omega (arith, e)), All-map t other dt))
    where
      other : (c : ℕ) → IsDigit c → IsInLine c
      other c (low, high) e = omega (arith, e)

  line-length : length line ≡ length s + (2 + length t)
  line-length = length-append s (comma ∷ 32 ∷ t) ∙ omega arith

  parse_row-line :
      (dev mb : ℤ)
      → parse_int s ≡ some dev
      → parse_int t ≡ some mb
      → parse_row line ≡ succeeded (dev, mb)
  unfolding parse_row
  parse_row-line dev mb p q =
      rw (split_comma-digits s (32 ∷ t) ds, trim_space-digits s ds, p, spaced, q) refl
    where
      spaced : trim_space (32 ∷ t) ≡ t
      spaced = unfold trim_space trim_left in trim_space-digits t dt

-- The scanner gives the lines of the report.
scanned-report :
    (row : ℕ × ℕ) (rest : List (ℕ × ℕ))
    → scanned (split_lines (report (row ∷ rest)))
      ≡ row_text row ∷ scanned (split_lines (report rest))
unfolding scanned
scanned-report (dev, mb) rest =
    let (a, b) = numeral-length dev in
    let (c, d) = numeral-length mb in
    let l = line-length (numeral dev) (numeral mb) (numeral-digits dev) (numeral-digits mb) a c in
    let short = (ltb_iff (length (row_text (dev, mb))) 65536).1 (omega (arith, l)) in
    rw
      (
        split_lines-line (row_text (dev, mb)) (report rest)
            (line-IsInLine (numeral dev) (numeral mb) (numeral-digits dev) (numeral-digits mb) a c),
        short,
      )
      refl

parse_rows-report :
    (rows : List (ℕ × ℕ)) (m : Devices)
    → All (λ row. Fits row.0 × Fits row.1) rows
    → parse_rows m (scanned (split_lines (report rows))) ≡ succeeded (put_all m rows)
unfolding parse_rows
parse_rows-report [] m h = unfold split_lines in unfold scanned in refl
parse_rows-report ((dev, mb) ∷ rest) m ((fits_dev, fits_mb), h) =
    let s = numeral dev in
    let t = numeral mb in
    let a = (numeral-length dev).0 in
    let c = (numeral-length mb).0 in
    let row =
      parse_row-line s t (numeral-digits dev) (numeral-digits mb) a c (pos dev) (pos mb)
        (parse_int-numeral dev fits_dev) (parse_int-numeral mb fits_mb) in
    rw (scanned-report (dev, mb) rest) (
      rw
        (
          line-trimmed s t (numeral-digits dev) (numeral-digits mb) a c,
          line-nonempty s t (numeral-digits dev) (numeral-digits mb) a c,
          row,
        )
        (parse_rows-report rest (put_device (pos dev) (pos mb) m) h))

put_device-nonempty : (dev mb : ℤ) (m : Devices) → 0 < length (put_device dev mb m)
unfolding put_device
put_device-nonempty dev mb [] = omega arith
put_device-nonempty dev mb ((d, old) ∷ m) = elim (Bool-cases (eqb_ℤ d dev)) [
  | inl same ↦ rw same (omega arith)
  | inr differs ↦ rw differs (omega arith)
]

put_all-nonempty : (rows : List (ℕ × ℕ)) (m : Devices) → 0 < length m → 0 < length (put_all m rows)
put_all-nonempty [] m h = h
put_all-nonempty ((dev, mb) ∷ rest) m h =
    put_all-nonempty rest _ (put_device-nonempty (pos dev) (pos mb) m)

-- What nvidia-smi prints for a list of devices, one at least, with their megabytes, is read back as
-- the map that puts them in one after the other. The numbers are such that int64 holds them.
pub parse_nvidia_smi-report :
    (row : ℕ × ℕ) (rows : List (ℕ × ℕ))
    → All (λ row. Fits row.0 × Fits row.1) (row ∷ rows)
    → parse_nvidia_smi (report (row ∷ rows)) ≡ succeeded (put_all [] (row ∷ rows))
unfolding parse_nvidia_smi
parse_nvidia_smi-report row rows h = rw (parse_rows-report (row ∷ rows) [] h) (
    go (put_all [] (row ∷ rows))
      (put_all-nonempty rows _ (put_device-nonempty (pos row.0) (pos row.1) [])))
  where
    go :
        (m : Devices)
        → 0 < length m
        → ◌≡◌ {A = Result ParseError Devices}
            (elim m [ [] ↦ failed no_gpu_entries | d ∷ ds ↦ succeeded (d ∷ ds) ])
            (succeeded m)
    go [] k = absurd (omega arith)
    go (d ∷ ds) k = refl
