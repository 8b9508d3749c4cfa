-- ===== src/Pidof/Laws.antt =====
-- The loop of `bash_pidof` ends on what `pidof` prints, and not on other texts.
use cgproxy.Base.{
  ℕ, zero, suc, ◌<◌, true, false, List, [], ◌∷◌, ◌++◌, map, Bytes, length, length-append, ◌≡◌, ◌≢◌,
  refl, arith,
}
use cgproxy.Base.Int.{ℤ, pos}
use cgproxy.Base.Decimal.{
  is_digit, read_ℕ, read_ℕ-show_ℕ, AreDigits, show_ℕ, show_ℕ-AreDigits, show_ℕ-ne-nil,
}
use cgproxy.Effect.{returned, hangs}
use cgproxy.Pidof.{is_space, span_digits, number, scan_int, read_pids, pids_of}

-- What `pidof` prints: the pids with a space between them, and a newline.
abbrev separator : List ℕ → ℕ
separator [] = b'\n'
separator (_ ∷ _) = b' '

abbrev pub pidof_text : List ℕ → Bytes
pidof_text [] = []
pidof_text (n ∷ ns) = show_ℕ n ++ (separator ns ∷ pidof_text ns)

span_digits-append :
    (ds : Bytes) (c : ℕ) (rest : Bytes)
    → AreDigits ds
    → is_digit c ≡ false
    → span_digits (ds ++ c ∷ rest) ≡ (ds, c ∷ rest)
unfolding span_digits
span_digits-append [] c rest h k = rw k refl
span_digits-append (d ∷ ds) c rest h k = rw (h.0, span_digits-append ds c rest h.1 k) refl

scan_int-digits :
    (ds : Bytes) (c : ℕ) (rest : Bytes)
    → ds ≢ []
    → AreDigits ds
    → is_digit c ≡ false
    → scan_int (ds ++ c ∷ rest) ≡ number (pos (read_ℕ ds)) (c ∷ rest)
unfolding scan_int
scan_int-digits [] c rest ne h k = absurd (ne refl)
scan_int-digits (d ∷ ds) c rest ne h k = ground (arith, span_digits-append (d ∷ ds) c rest h k)

scan_int-space : (c : ℕ) (rest : Bytes) → is_space c ≡ true → scan_int (c ∷ rest) ≡ scan_int rest
unfolding scan_int
scan_int-space c rest h = rw h refl

read_pids-space :
    (f c : ℕ) (pid : ℤ) (rest : Bytes)
    → is_space c ≡ true
    → read_pids f pid (c ∷ rest) ≡ read_pids f pid rest
unfolding read_pids
read_pids-space zero c pid rest h = refl
read_pids-space (suc f) c pid rest h = rw (scan_int-space c rest h, read_pids) refl

separator_lem : (ns : List ℕ) → (is_space (separator ns) ≡ true) × (is_digit (separator ns) ≡ false)
separator_lem [] = (refl, refl)
separator_lem (_ ∷ _) = (refl, refl)

length-ne-nil {ℓ} : {A : Type ℓ} (xs : List A) → xs ≢ [] → 0 < length xs
length-ne-nil [] h = absurd (h refl)
length-ne-nil (x ∷ xs) h = omega arith

read_pids-pidof_text :
    (f : ℕ) (pid : ℤ) (ns : List ℕ)
    → length (pidof_text ns) < f
    → read_pids f pid (pidof_text ns) ≡ returned (map pos ns)
unfolding read_pids
read_pids-pidof_text zero pid ns h = elim h [ ]
read_pids-pidof_text (suc f) pid [] h = unfold scan_int in refl
read_pids-pidof_text (suc f) pid (n ∷ ns) h =
    let (space, no_digit) = separator_lem ns in
    let rest : read_pids f (pos n) (pidof_text ns) ≡ returned (map pos ns) =
      read_pids-pidof_text f (pos n) ns (
        omega (
          arith,
          length-append (show_ℕ n) (separator ns ∷ pidof_text ns),
          length-ne-nil (show_ℕ n) (show_ℕ-ne-nil n),
        )) in
    ground (
      arith,
      scan_int-digits (show_ℕ n) (separator ns) (pidof_text ns) (show_ℕ-ne-nil n)
          (show_ℕ-AreDigits n) no_digit,
      read_pids-space f (separator ns) (pos n) (pidof_text ns) space,
      rest,
      read_ℕ-show_ℕ n,
    )

-- On the output of pidof the loop of bash_pidof ends, with exactly the pids that were printed, in
-- their order, whatever the variable held before.
pub pids_of-pidof_text :
    (pid : ℤ) (ns : List ℕ) → pids_of pid (pidof_text ns) ≡ returned (map pos ns)
unfolding pids_of
pids_of-pidof_text pid ns = read_pids-pidof_text (suc (length (pidof_text ns))) pid ns (omega arith)

-- On a text that begins with anything but a space, a digit or a sign the loop of bash_pidof does
-- not end, however many rounds it is given.
pub read_pids_hangs :
    (fuel : ℕ) (pid : ℤ) (c : ℕ) (cs : Bytes)
    → is_space c ≡ false
    → is_digit c ≡ false
    → c ≢ b'-'
    → c ≢ b'+'
    → read_pids fuel pid (c ∷ cs) ≡ hangs
unfolding read_pids scan_int
read_pids_hangs zero pid c cs s d m p = refl
read_pids_hangs (suc f) pid c cs s d m p = ground (arith, read_pids_hangs f pid c cs s d m p)
