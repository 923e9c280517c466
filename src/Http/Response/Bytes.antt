-- ===== src/Http/Response/Bytes.antt =====
-- What `send_http_response` puts on the wire, and that it stays within its buffer.
use geo_ns_core.Common.{
  ℕ, zero, suc, ◌+◌, ◌-◌, ◌<◌, ◌≤◌, ◌≡◌, refl, ap, ◌∙◌, sym, List, [], ◌∷◌, ◌++◌, some, arith, leb,
  length, length-append, take, drop, length-drop, take_all, take-append, take-append_add,
  append_assoc, lt→ltb, append-nil, true,
}
use native.Mathlib.Nat.{zero-add}
use geo_ns_core.Text.Decimal.{length-decimal_three}
use geo_ns_core.Http.Response.{
  HttpResponse, snprintf, response_head, headers_size, zeros, write_at, fill_buffer,
  send_http_response,
}

-- The size that the code computes is the length of what it prints, for a code of three digits.
length-response_head :
    (response : HttpResponse)
    → 100 ≤ response.status_code
    → response.status_code < 1000
    → length (response_head response) ≡ headers_size response
unfolding response_head headers_size
length-response_head response h k =
    simp length-append (omega (arith, length-decimal_three response.status_code h k))

length-zeros : (n : ℕ) → length (zeros n) ≡ n
length-zeros zero = refl
length-zeros (suc n) = ap suc (length-zeros n)

write_at_fits :
    (buffer : List ℕ) (offset : ℕ) (bytes : List ℕ)
    → offset + length bytes ≤ length buffer
    → write_at buffer offset bytes
      ≡ some (take offset buffer ++ (bytes ++ drop (offset + length bytes) buffer))
unfolding write_at
write_at_fits buffer offset bytes h =
    let t : leb (offset + length bytes) (length buffer) ≡ true = ground arith in rw t

-- A text of `m` bytes with its 0, printed into a buffer of zeros, and bytes put in the place of the 0.
module _ (head body : List ℕ) where
  abbrev printed_tail : List ℕ
  printed_tail = 0 ∷ drop (length (head ++ 0 ∷ [])) (zeros (length head + length body + 1))

  print_head :
      write_at (zeros (length head + length body + 1)) 0 (head ++ 0 ∷ [])
      ≡ some (head ++ printed_tail)
  print_head =
      write_at_fits (zeros (length head + length body + 1)) 0 (head ++ 0 ∷ [])
        (omega (arith, length-append head (0 ∷ []), length-zeros (length head + length body + 1)))
      ∙ ap some (simp (zero-add, append_assoc))

  length-printed : length (head ++ printed_tail) ≡ length head + length body + 1
  length-printed = omega (
    arith,
    length-append head printed_tail,
    length-append head (0 ∷ []),
    length-drop (length (head ++ 0 ∷ [])) (zeros (length head + length body + 1)),
    length-zeros (length head + length body + 1),
  )

  copy_tail :
      (filled : List ℕ) × (write_at (head ++ printed_tail) (length head) body ≡ some filled)
      × (take (length head + length body) filled ≡ head ++ body)
  copy_tail =
      let rest = drop (length head + length body) (head ++ printed_tail) in
      (
        _,
        write_at_fits (head ++ printed_tail) (length head) body (omega (arith, length-printed)),
        rw (take-append head printed_tail (length head) refl) (
            take-append_add head (body ++ rest) (length head) (length body) _ refl refl
            ∙ ap (λ t. head ++ t) (take-append body rest (length body) refl)),
      )

snprintf_all : (head : List ℕ) → snprintf (length head + 1) head ≡ head
snprintf_all head = take_all (length head + 1 - 1) head (omega arith)

fill_buffer_lem :
    (head body : List ℕ)
    → fill_buffer head (length head) (some body) (length body) ≡ some (head ++ body)
unfolding fill_buffer
fill_buffer_lem head [] =
    rw (snprintf_all head, print_head head [])
      (ap some (take-append head _ _ (omega arith) ∙ sym (append-nil head)))
fill_buffer_lem head (c ∷ cs) =
    let (filled, e, t) = copy_tail head (c ∷ cs) in
    rw
      (
        snprintf_all head,
        print_head head (c ∷ cs),
        take_all (length (c ∷ cs)) (c ∷ cs) (omega arith),
        e,
        lt→ltb 0 (length (c ∷ cs)) (omega arith),
      )
      (ap some t)

-- A response whose status code has three digits is sent as its head and then its body, and neither
-- the head nor the body is written past the end of the buffer. `body_size` is the size of the body.
pub send_http_response-bytes :
    (response : HttpResponse) (body : List ℕ)
    → 100 ≤ response.status_code
    → response.status_code < 1000
    → response.body ≡ some body
    → response.body_size ≡ length body
    → send_http_response response ≡ some (response_head response ++ body)
unfolding send_http_response
send_http_response-bytes response body h k b size =
    (λ i.
      fill_buffer (response_head response) (sym (length-response_head response h k) i) (b i)
        (size i))
    ∙ fill_buffer_lem (response_head response) body
