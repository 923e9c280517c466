-- ===== src/Socket/Buffer.antt =====
-- The buffer of a client's thread, `connection->buffer` of src/libs/socket/socket.c: `handle_client` gets
-- it zeroed, and every `recv` with MSG_PEEK writes over its start. It is not cleared in between.
use geo_ns_core.Common.{
  ℕ, zero, suc, false, ◌+◌, ◌-◌, ◌<◌, ◌≡◌, ◌≢◌, refl, ◌∙◌, ap, sym, [], ◌∷◌, ◌++◌, Option, none,
  some, ◌==◌, if◌then◌else◌, length, length-append, take, take_all, length-take, length-drop, drop,
  append_assoc, arith, All-append,
}
use geo_ns_core.Text.{Text, HasNoNul}

unfoldable pub zeros : ℕ → Text
zeros zero = []
zeros (suc n) = 0 ∷ zeros n

-- The buffer behind a `recv` of what has arrived.
unfoldable pub peeked : Text → Text → Text
peeked buffer arrived = take (length buffer) arrived ++ drop (length arrived) buffer

abbrev pub cons_string : ℕ → Option Text → Option Text
cons_string c none = none
cons_string c (some text) = some (c ∷ text)

-- The buffer as a string; `none`: it has no 0, and reading goes on behind it.
unfoldable pub c_string : Text → Option Text
c_string [] = none
c_string (c ∷ buffer) = let rest = c_string buffer in if c == 0 then some [] else cons_string c rest

pub length-zeros : (n : ℕ) → length (zeros n) ≡ n
unfolding zeros
length-zeros zero = refl
length-zeros (suc n) = omega (arith, length-zeros n)

drop-zeros : (m n : ℕ) → drop m (zeros n) ≡ zeros (n - m)
unfolding zeros
drop-zeros zero n = let same : n ≡ n - 0 = omega arith in ap zeros same
drop-zeros (suc m) zero = let same : 0 ≡ 0 - suc m = omega arith in ap zeros same
drop-zeros (suc m) (suc n) =
    let same : n - m ≡ suc n - suc m = omega arith in drop-zeros m n ∙ ap zeros same

drop-append_split :
    (n : ℕ) (xs ys : Text) → drop n (xs ++ ys) ≡ drop n xs ++ drop (n - length xs) ys
drop-append_split zero xs ys =
    let none_left : 0 ≡ 0 - length xs = omega arith in ap (λ d. xs ++ drop d ys) none_left
drop-append_split (suc n) [] ys =
    let all_left : suc n ≡ suc n - 0 = omega arith in ap (λ d. drop d ys) all_left
drop-append_split (suc n) (x ∷ xs) ys =
    let same : n - length xs ≡ suc n - suc (length xs) = omega arith in
    drop-append_split n xs ys ∙ ap (λ d. drop n xs ++ drop d ys) same

drop-HasNoNul : (n : ℕ) (text : Text) → HasNoNul text → HasNoNul (drop n text)
drop-HasNoNul zero text h = h
drop-HasNoNul (suc n) [] h = tt
drop-HasNoNul (suc n) (c ∷ text) h = drop-HasNoNul n text h.1

-- The buffer holds a string and is zero behind it.
abbrev pub Holds : Text → Text → Type 0
Holds buffer text = HasNoNul text × ((k : ℕ) × (buffer ≡ text ++ zeros (suc k)))

pub zeros-Holds : (k : ℕ) → Holds (zeros (suc k)) []
zeros-Holds k = (tt, (k, refl))

c_string-append : (text rest : Text) → HasNoNul text → c_string (text ++ 0 ∷ rest) ≡ some text
unfolding c_string
c_string-append [] rest h = refl
c_string-append (c ∷ text) rest (ne, h) =
    let other : (c == 0) ≡ false = ground arith in rw (other, c_string-append text rest h) refl

pub c_string-Holds : {buffer : Text} (text : Text) → Holds buffer text → c_string buffer ≡ some text
unfolding zeros
c_string-Holds text (h, (k, e)) = ap c_string e ∙ c_string-append text (zeros k) h

-- A message that fits is followed by what the last string had behind its length: a shorter message does
-- not cover a longer one.
pub peeked-Holds :
    {buffer : Text} (text message : Text)
    → Holds buffer text
    → HasNoNul message
    → length message < length buffer
    → Holds (peeked buffer message) (message ++ drop (length message) text)
unfolding peeked
peeked-Holds {buffer} text message (h, (k, e)) no_nul short =
    let d : ℕ = length message - length text in
    let size : length buffer ≡ length text + suc k =
      ap length e
      ∙ length-append text (zeros (suc k))
      ∙ ap (λ n. length text + n) (length-zeros (suc k)) in
    let left : suc k - d ≡ suc (k - d) = omega arith in
    (
      All-append (λ c. c ≢ 0) message (drop (length message) text) no_nul
          (drop-HasNoNul (length message) text h),
      (
        k - d,
        ap (λ t. t ++ drop (length message) buffer) (take_all (length buffer) message (omega arith))
            ∙ ap (λ b. message ++ drop (length message) b) e
            ∙ ap (λ t. message ++ t)
                (drop-append_split (length message) text (zeros (suc k))
                  ∙ ap (λ t. drop (length message) text ++ t)
                      (drop-zeros d (suc k) ∙ ap zeros left))
            ∙ sym (append_assoc message (drop (length message) text) (zeros (suc (k - d)))),
      ),
    )

pub length-peeked :
    (buffer message : Text)
    → length message < length buffer
    → length (peeked buffer message) ≡ length buffer
unfolding peeked
length-peeked buffer message short = omega (
  arith,
  length-append (take (length buffer) message) (drop (length message) buffer),
  length-take (length buffer) message,
  length-drop (length message) buffer,
)
