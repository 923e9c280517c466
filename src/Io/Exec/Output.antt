-- ===== src/Io/Exec/Output.antt =====
-- What `exec` answers for a command.
use geo_ns_core.Common.{
  ℕ, zero, suc, ◌+◌, ◌-◌, ◌<◌, ◌≤◌, ◌≡◌, refl, ◌∙◌, ap, sym, true, false, List, [], ◌∷◌, ◌++◌,
  Option, none, some, ◌==◌, leb, if◌then◌else◌, length, take, arith, append_assoc, append-nil,
  length-append, Bool-cases, inl, inr,
}
use geo_ns_core.Text.{Text, HasNoNul}
use geo_ns_core.Io.Exec.{
  max_sys_output_length, max_sys_command_length_per_exec, Shell, overrun, answered, fgets,
  up_to_nul, add_chunk, read_output, exec,
}

up_to_nul-HasNoNul : (chunk : List ℕ) → HasNoNul chunk → up_to_nul chunk ≡ chunk
unfolding up_to_nul
up_to_nul-HasNoNul [] h = refl
up_to_nul-HasNoNul (c ∷ chunk) (ne, h) =
    let other : (c == 0) ≡ false = ground arith in
    rw other (ap (λ t. c ∷ t) (up_to_nul-HasNoNul chunk h))

-- A line is a beginning of the stream, and what is left is the rest.
fgets-append :
    (room : ℕ) (stream : List ℕ) → (fgets room stream).0 ++ (fgets room stream).1 ≡ stream
unfolding fgets
fgets-append zero stream = refl
fgets-append (suc room) [] = refl
fgets-append (suc room) (c ∷ stream) = elim (Bool-cases (c == 10)) [
  | inl ends ↦ rw ends refl
  | inr goes ↦ rw goes (ap (λ t. c ∷ t) (fgets-append room stream))
]

fgets-takes :
    (room : ℕ) (c : ℕ) (stream : List ℕ) → length (fgets (suc room) (c ∷ stream)).1 ≤ length stream
unfolding fgets
fgets-takes room c stream = elim (Bool-cases (c == 10)) [
  | inl ends ↦ rw ends (omega arith)
  | inr goes ↦ rw goes (
      omega (
        arith,
        ap length (fgets-append room stream),
        length-append (fgets room stream).0 (fgets room stream).1,
      ))
]

HasNoNul-parts : (xs ys : Text) → HasNoNul (xs ++ ys) → HasNoNul xs × HasNoNul ys
HasNoNul-parts [] ys h = (tt, h)
HasNoNul-parts (x ∷ xs) ys (ne, h) = let (a, b) = HasNoNul-parts xs ys h in ((ne, a), b)

-- The text, where it fits with its 0.
abbrev fitting : Text → Option Text
fitting text = if leb max_sys_output_length (length text) then none else some text

add_chunk-fitting :
    (result chunk : Text) → HasNoNul chunk → add_chunk result chunk ≡ fitting (result ++ chunk)
unfolding add_chunk
add_chunk-fitting result chunk h = rw (up_to_nul-HasNoNul chunk h) refl

fitting-long :
    (result stream : Text)
    → leb max_sys_output_length (length result) ≡ true
    → fitting (result ++ stream) ≡ none
fitting-long result stream long =
    let more : leb max_sys_output_length (length (result ++ stream)) ≡ true =
      ground (arith, length-append result stream) in
    rw more refl

fitting-short :
    (result : Text) → length result < max_sys_output_length → fitting result ≡ some result
fitting-short result short =
    let fits : leb max_sys_output_length (length result) ≡ false = ground arith in rw fits refl

read_output-fitting :
    (fuel : ℕ) (result : Text) (stream : List ℕ)
    → HasNoNul stream
    → length result < max_sys_output_length
    → length stream < fuel
    → read_output fuel result stream ≡ fitting (result ++ stream)
unfolding read_output
read_output-fitting zero result stream no_nul short fuel = absurd (omega arith)
read_output-fitting (suc k) result [] no_nul short fuel =
    rw (append-nil result) (sym (fitting-short result short))
read_output-fitting (suc k) result (c ∷ stream) no_nul short fuel =
    let chunk = (fgets 255 (c ∷ stream)).0 in
    let rest = (fgets 255 (c ∷ stream)).1 in
    let whole : chunk ++ rest ≡ c ∷ stream = fgets-append 255 (c ∷ stream) in
    let parts : HasNoNul chunk × HasNoNul rest = HasNoNul-parts chunk rest (rw whole no_nul) in
    let taken : length rest ≤ length stream = fgets-takes 254 c stream in
    let all : fitting ((result ++ chunk) ++ rest) ≡ fitting (result ++ c ∷ stream) =
      ap fitting (append_assoc result chunk rest ∙ ap (λ t. result ++ t) whole) in
    rw (add_chunk-fitting result chunk parts.0)
      (elim (Bool-cases (leb max_sys_output_length (length (result ++ chunk)))) [
        | inl long ↦ rw long (sym (fitting-long (result ++ chunk) rest long) ∙ all)
        | inr fits ↦ rw fits (
            read_output-fitting k (result ++ chunk) rest parts.1 (ground arith) (omega arith) ∙ all)
      ])

-- The output of a command that starts is given whole, if `pclose` succeeds, as long as it is shorter
-- than 8192 bytes; a longer one is written behind the end of its memory. Only the first 1023 bytes of
-- the command are run; the output has no 0.
pub exec-output :
    (shell : Shell) (text : Text) (output : List ℕ)
    → shell.has_memory ≡ true
    → shell.popen (take (max_sys_command_length_per_exec - 1) text) ≡ some output
    → HasNoNul output
    → exec shell text ≡ (
        if leb max_sys_output_length (length output)
        then overrun
        else answered (if shell.closes then some output else none))
unfolding exec
exec-output shell text output memory starts no_nul =
    rw
      (
        memory,
        starts,
        read_output-fitting (length output + 1) [] output no_nul (omega arith) (omega arith),
      )
      (elim (Bool-cases (leb max_sys_output_length (length output))) [
        | inl long ↦ rw long refl
        | inr fits ↦ rw fits refl
      ])
