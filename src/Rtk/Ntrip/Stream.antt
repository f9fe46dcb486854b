-- ===== src/Rtk/Ntrip/Stream.antt =====
-- The bytes that the client of extras/rtkNmea/ntrip.cpp hands on.
use mandeye_controller.Prelude.{
  Text, ℕ, zero, suc, ◌+◌, ◌-◌, ◌≡◌, refl, sym, ap, ◌∙◌, Bool, true, false, Option, none, some,
  List, [], ◌∷◌, ◌++◌, append-nil, append_assoc, arith, some-eq, length, length-append, take, drop,
}
use mathlib.Core.Path.{subst}
use mathlib.Core.List.{flatten}
use mandeye_controller.Prelude.Options.{bind-some, if-some}
use mandeye_controller.Rtk.Ntrip.{
  Op, resolving, connecting, writing, reading_headers, reading_stream, Client, Event, completed,
  aborted, reconnect_due, watchdog_due, gga_due, gga_written, send_gga, write_gga,
  schedule_reconnect, do_connect, stop, fail, stream_data, succeed, handle, pick, step, steps,
}

-- All that the buffer and the callback have, in the order of arrival.
abbrev pub received : Client → List ℕ
received c = flatten c.delivered ++ c.response

abbrev new_bytes : Op → List ℕ → List ℕ
new_bytes reading_headers bytes = bytes
new_bytes reading_stream bytes = bytes
new_bytes o bytes = []

-- How many of them nothing is taken from the buffer for.
abbrev left_bytes : (ok : Bool) → Op → List ℕ → ℕ
left_bytes ok reading_headers bytes = length bytes
left_bytes false reading_stream bytes = length bytes
left_bytes ok o bytes = 0

-- What one completion adds to what was received and to the buffer.
abbrev Adds : Client → List ℕ → ℕ → Client → Type 0
Adds c bytes n d = (received d ≡ received c ++ bytes) × (length d.response ≡ length c.response + n)

flatten-snoc : (xss : List (List ℕ)) (xs : List ℕ) → flatten (xss ++ (xs ∷ [])) ≡ flatten xss ++ xs
unfolding flatten
flatten-snoc [] xs = append-nil xs
flatten-snoc (ys ∷ xss) xs = ap (◌++◌ ys) (flatten-snoc xss xs) ∙ sym (append_assoc ys _ xs)

take-drop : (n : ℕ) (xs : List ℕ) → take n xs ++ drop n xs ≡ xs
take-drop zero xs = refl
take-drop (suc n) [] = refl
take-drop (suc n) (x ∷ xs) = ap (◌∷◌ x) (take-drop n xs)

length-drop : (n : ℕ) (xs : List ℕ) → length (drop n xs) ≡ length xs - n
length-drop zero xs = omega arith
length-drop (suc n) [] = omega arith
length-drop (suc n) (x ∷ xs) = length-drop n xs ∙ omega arith

stream_data-Adds : (bytes : List ℕ) (c : Client) → Adds c bytes 0 (stream_data bytes c)
unfolding stream_data
stream_data-Adds bytes c = (
  ap (λ l. l ++ drop (length bytes) (c.response ++ bytes)) (flatten-snoc c.delivered _)
      ∙ append_assoc (flatten c.delivered) _ _
      ∙ ap (◌++◌ (flatten c.delivered)) (take-drop (length bytes) (c.response ++ bytes))
      ∙ sym (append_assoc (flatten c.delivered) _ _),
  length-drop (length bytes) (c.response ++ bytes)
      ∙ let both = length-append c.response bytes in omega (arith, both),
)

nothing-Adds : (c : Client) → Adds c [] 0 c
nothing-Adds c = (sym (append-nil (received c)), omega arith)

append-Adds :
    (bytes : List ℕ) (c : Client)
    → Adds c bytes (length bytes) (record c { response = c.response ++ bytes })
append-Adds bytes c =
    (sym (append_assoc (flatten c.delivered) c.response bytes), length-append c.response bytes)

fail-Adds :
    (o : Op) (bytes : List ℕ) (c : Client)
    → Adds c (new_bytes o bytes) (left_bytes false o bytes) (fail o bytes c)
unfolding fail
fail-Adds reading_stream bytes c = append-Adds bytes c
fail-Adds resolving bytes c = nothing-Adds c
fail-Adds connecting bytes c = nothing-Adds c
fail-Adds writing bytes c = nothing-Adds c
fail-Adds reading_headers bytes c = append-Adds bytes c

handle-Adds :
    (ok : Bool) (o : Op) (bytes : List ℕ) (c : Client)
    → Adds c (new_bytes o bytes) (left_bytes ok o bytes) (handle ok o bytes c)
unfolding succeed
handle-Adds false o bytes c = fail-Adds o bytes c
handle-Adds true resolving bytes c = nothing-Adds c
handle-Adds true connecting bytes c = nothing-Adds c
handle-Adds true writing bytes c = nothing-Adds c
handle-Adds true reading_headers bytes c = append-Adds bytes c
handle-Adds true reading_stream bytes c = stream_data-Adds bytes c

write_gga-Adds : (text : Option Text) (c : Client) → Adds c [] 0 (write_gga text c)
write_gga-Adds none c = nothing-Adds c
write_gga-Adds (some text) c = nothing-Adds c

abbrev picked {ℓ} : {A : Type ℓ} → (Op → A) → A → Option (Op × List Op) → A
picked f a none = a
picked f a (some (o, rest)) = f o

-- The bytes that an event brings to a reading operation, and how many of them stay in the buffer:
-- those that come with the headers or before an error.
abbrev arrives : Event → Client → List ℕ
arrives (completed k ok bytes) c = picked (λ o. new_bytes o bytes) [] (pick k c.ops)
arrives (aborted bytes) c = picked (λ o. new_bytes o bytes) [] (pick 0 c.cancelled)
arrives e c = []

abbrev leaves : Event → Client → ℕ
leaves (completed k ok bytes) c = picked (λ o. left_bytes ok o bytes) 0 (pick k c.ops)
leaves (aborted bytes) c = picked (λ o. left_bytes false o bytes) 0 (pick 0 c.cancelled)
leaves e c = 0

unfoldable pub arrivals : List Event → Client → List ℕ
arrivals [] c = []
arrivals (e ∷ es) c = arrives e c ++ elim (step e c) [ none ↦ [] | some d ↦ arrivals es d ]

unfoldable pub left_length : List Event → Client → ℕ
left_length [] c = 0
left_length (e ∷ es) c = leaves e c + elim (step e c) [ none ↦ 0 | some d ↦ left_length es d ]

step-Adds : (e : Event) (c d : Client) → step e c ≡ some d → Adds c (arrives e c) (leaves e c) d
unfolding step do_connect schedule_reconnect stop
step-Adds (completed k ok bytes) c d e =
    let ((o, rest), (e1, e2)) = bind-some (pick k c.ops) _ d e in
    rw e1 (subst (Adds c _ _) (some-eq e2) (handle-Adds ok o bytes _))
step-Adds (aborted bytes) c d e =
    let ((o, rest), (e1, e2)) = bind-some (pick 0 c.cancelled) _ d e in
    rw e1 (subst (Adds c _ _) (some-eq e2) (fail-Adds o bytes _))
step-Adds (gga_due is_open sentence) c d e =
    subst (Adds c [] 0) (some-eq e) (write_gga-Adds (send_gga is_open sentence) c)
step-Adds (gga_written k) c d e =
    let ((text, rest), (e1, e2)) = bind-some (pick k c.gga_writes) _ d e in
    subst (Adds c [] 0) (some-eq e2) (nothing-Adds c)
step-Adds reconnect_due c d e = subst (Adds c [] 0) (if-some _ _ d e).1 (nothing-Adds c)
step-Adds watchdog_due c d e = subst (Adds c [] 0) (if-some _ _ d e).1 (nothing-Adds c)

-- Whatever the events, what the callback was given and then the buffer hold what they held before
-- and the bytes that came, those with the headers and before an error among them, in their order; and
-- the buffer, whose bytes the callback has yet to get, is longer by as many as came with the headers
-- or before an error.
pub steps-received :
    (es : List Event) (c d : Client)
    → steps es c ≡ some d
    → (received d ≡ received c ++ arrivals es c)
      × (length d.response ≡ length c.response + left_length es c)
unfolding steps arrivals left_length
steps-received [] c d e = subst (Adds c [] 0) (some-eq e) (nothing-Adds c)
steps-received (e ∷ es) c d h =
    let (u, (e1, e2)) = bind-some (step e c) (steps es) d h in
    let (new, held) = step-Adds e c u e1 in
    let (later, rest) = steps-received es u d e2 in
    rw e1 (
      later ∙ ap (λ l. l ++ arrivals es u) new ∙ append_assoc (received c) (arrives e c) _,
      omega (arith, rest, held),
    )
