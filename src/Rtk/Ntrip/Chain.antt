-- ===== src/Rtk/Ntrip/Chain.antt =====
-- The client of extras/rtkNmea/ntrip.cpp sets up one connection at a time and never gives up.
use mandeye_controller.Prelude.{
  ℕ, zero, suc, ◌≡◌, ◌≢◌, refl, Bool, true, false, Option, none, some, Text, List, [], ◌∷◌, some-eq,
}
use mathlib.Core.Path.{subst}
use mandeye_controller.Prelude.Options.{bind-some}
use mandeye_controller.Rtk.Ntrip.{
  Op, resolving, connecting, writing, reading_headers, reading_stream, Client, Event, completed,
  aborted, reconnect_due, watchdog_due, gga_due, gga_written, write_gga, send_gga,
  schedule_reconnect, do_connect, stop, fail, succeed, handle, pick, start, made, step, steps,
  stop_watchdog, on_socket, off_socket,
}

-- One operation of the connection is in flight, and the watchdog waits only while it reads the stream; or nothing is,
-- the timer waits, and at most one cancelled operation's handler is still to be called.
unfoldable pub Shape : (ops cancelled : List Op) (reconnect watchdog : Bool) → Type 0
Shape [] [] r w = (r ≡ true) × (w ≡ false)
Shape [] (o ∷ []) r w = (r ≡ true) × (w ≡ false)
Shape (o ∷ []) [] r w = (r ≡ false) × (w ≡ true → o ≡ reading_stream)
Shape _ _ r w = ⊥

unfoldable pub IsChain : Client → Type 0
unfolding Shape
IsChain c = Shape c.ops c.cancelled c.reconnect c.watchdog

-- The client with these fields.
abbrev with_fields : Client → List Op → List Op → Bool → Bool → Client
with_fields c ops cancelled r w = record c {
  ops = ops;
  cancelled = cancelled;
  reconnect = r;
  watchdog = w;
}

not_watched : (o : Op) (w : Bool) → (w ≡ true → o ≡ reading_stream) → o ≢ reading_stream → w ≡ false
not_watched o true h k = absurd (k (h refl))
not_watched o false h k = refl

fail-IsChain :
    (o : Op) (bytes : List ℕ) (c : Client) (r w : Bool)
    → (w ≡ true → o ≡ reading_stream)
    → IsChain (fail o bytes (with_fields c [] [] r w))
unfolding fail IsChain
fail-IsChain reading_stream bytes c r w h = (refl, refl)
fail-IsChain resolving bytes c r w h = (refl, not_watched resolving w h (λ e. cc))
fail-IsChain connecting bytes c r w h = (refl, not_watched connecting w h (λ e. cc))
fail-IsChain writing bytes c r w h = (refl, not_watched writing w h (λ e. cc))
fail-IsChain reading_headers bytes c r w h = (refl, not_watched reading_headers w h (λ e. cc))

goes_on :
    (o p : Op) (w : Bool)
    → (w ≡ true → o ≡ reading_stream)
    → o ≢ reading_stream
    → w ≡ true
    → p ≡ reading_stream
goes_on o p w h k on = absurd (k (h on))

handle-IsChain :
    (ok : Bool) (o : Op) (bytes : List ℕ) (c : Client) (w : Bool)
    → (w ≡ true → o ≡ reading_stream)
    → IsChain (handle ok o bytes (with_fields c [] [] false w))
unfolding succeed IsChain
handle-IsChain false o bytes c w h = fail-IsChain o bytes c false w h
handle-IsChain true resolving bytes c w h = (refl, goes_on resolving _ w h (λ e. cc))
handle-IsChain true connecting bytes c w h = (refl, goes_on connecting _ w h (λ e. cc))
handle-IsChain true writing bytes c w h = (refl, goes_on writing _ w h (λ e. cc))
handle-IsChain true reading_headers bytes c w h = (refl, λ e. refl)
handle-IsChain true reading_stream bytes c w h = (refl, λ e. refl)

not_reading : (o : Op) → (true ≡ true → o ≡ reading_stream) → o ≢ reading_stream → ⊥
not_reading o h k = k (h refl)

write_gga-IsChain : (text : Option Text) (c : Client) → IsChain c → IsChain (write_gga text c)
unfolding IsChain
write_gga-IsChain none c h = h
write_gga-IsChain (some text) c h = h

step_at :
    (e : Event) (c d : Client) (ops cancelled : List Op) (r w : Bool)
    → Shape ops cancelled r w
    → step e (with_fields c ops cancelled r w) ≡ some d
    → IsChain d
unfolding IsChain step do_connect schedule_reconnect stop pick on_socket off_socket
step_at (completed k ok bytes) c d [] cs r w s e = absurd cc
step_at (completed zero ok bytes) c d (o ∷ []) [] true w (s, t) e = absurd cc
step_at (completed zero ok bytes) c d (o ∷ []) [] false w (s, t) e =
    subst IsChain (some-eq e) (handle-IsChain ok o bytes c w t)
step_at (completed (suc k) ok bytes) c d (o ∷ []) [] r w s e = absurd cc
step_at (aborted bytes) c d ops [] r w s e = absurd cc
step_at (aborted bytes) c d [] (o ∷ []) r w (s, t) e =
    subst IsChain (some-eq e) (fail-IsChain o bytes c r w (λ on. absurd cc))
step_at reconnect_due c d [] [] false w (s, t) e = absurd cc
step_at reconnect_due c d [] [] true w (s, t) e = subst IsChain (some-eq e) (refl, λ on. absurd cc)
step_at reconnect_due c d (o ∷ []) [] true w (s, t) e = absurd cc
step_at reconnect_due c d (o ∷ []) [] false w (s, t) e = absurd cc
step_at reconnect_due c d ops (o ∷ cs) r w s e = absurd cc
step_at watchdog_due c d [] [] r true (s, t) e = absurd cc
step_at watchdog_due c d [] [] r false (s, t) e = absurd cc
step_at watchdog_due c d (o ∷ []) [] r false (s, t) e = absurd cc
step_at watchdog_due c d (reading_stream ∷ []) [] r true (s, t) e =
    subst IsChain (some-eq e) (refl, refl)
step_at watchdog_due c d (resolving ∷ []) [] r true (s, t) e =
    absurd (not_reading resolving t (λ f. cc))
step_at watchdog_due c d (connecting ∷ []) [] r true (s, t) e =
    absurd (not_reading connecting t (λ f. cc))
step_at watchdog_due c d (writing ∷ []) [] r true (s, t) e =
    absurd (not_reading writing t (λ f. cc))
step_at watchdog_due c d (reading_headers ∷ []) [] r true (s, t) e =
    absurd (not_reading reading_headers t (λ f. cc))
step_at watchdog_due c d ops (o ∷ cs) r w s e = absurd cc
step_at (gga_due is_open sentence) c d ops cs r w s e =
    subst IsChain (some-eq e)
      (write_gga-IsChain (send_gga is_open sentence) (with_fields c ops cs r w) s)
step_at (gga_written k) c d ops cs r w s e =
    let ((text, rest), (e1, e2)) = bind-some (pick k c.gga_writes) _ d e in
    subst IsChain (some-eq e2) s
step_at e' c d (o ∷ p ∷ ops) cs r w s e = absurd s
step_at e' c d (o ∷ []) (p ∷ cs) r w s e = absurd s
step_at e' c d [] (o ∷ p ∷ cs) r w s e = absurd s

pub steps-IsChain : (es : List Event) (c d : Client) → IsChain c → steps es c ≡ some d → IsChain d
unfolding steps IsChain
steps-IsChain [] c d h e = subst IsChain (some-eq e) h
steps-IsChain (ev ∷ es) c d h e =
    let (u, (e1, e2)) = bind-some (step ev c) (steps es) d e in
    steps-IsChain es u d (step_at ev c u c.ops c.cancelled c.reconnect c.watchdog h e1) e2

start-IsChain : IsChain (start made)
unfolding IsChain start do_connect
start-IsChain = (refl, λ e. absurd cc)

-- Events that lead to an attempt to connect.
abbrev pub Reconnects : Client → Type 0
Reconnects c =
    (later : List Event) × ((d : Client) × ((steps later c ≡ some d) × (d.ops ≡ resolving ∷ [])))

Reconnects-at :
    (c : Client) (ops cancelled : List Op) (r w : Bool)
    → Shape ops cancelled r w
    → Reconnects (with_fields c ops cancelled r w)
unfolding Shape steps step fail do_connect schedule_reconnect stop_watchdog pick
Reconnects-at c [] [] true w s = (reconnect_due ∷ [], (_, (refl, refl)))
Reconnects-at c [] [] false w (s, t) = absurd cc
Reconnects-at c [] (o ∷ []) false w (s, t) = absurd cc
Reconnects-at c [] (resolving ∷ []) true w s = (aborted [] ∷ reconnect_due ∷ [], (_, (refl, refl)))
Reconnects-at c [] (connecting ∷ []) true w s = (aborted [] ∷ reconnect_due ∷ [], (_, (refl, refl)))
Reconnects-at c [] (writing ∷ []) true w s = (aborted [] ∷ reconnect_due ∷ [], (_, (refl, refl)))
Reconnects-at c [] (reading_headers ∷ []) true w s =
    (aborted [] ∷ reconnect_due ∷ [], (_, (refl, refl)))
Reconnects-at c [] (reading_stream ∷ []) true w s =
    (aborted [] ∷ reconnect_due ∷ [], (_, (refl, refl)))
Reconnects-at c (resolving ∷ []) [] r w s =
    (completed 0 false [] ∷ reconnect_due ∷ [], (_, (refl, refl)))
Reconnects-at c (connecting ∷ []) [] r w s =
    (completed 0 false [] ∷ reconnect_due ∷ [], (_, (refl, refl)))
Reconnects-at c (writing ∷ []) [] r w s =
    (completed 0 false [] ∷ reconnect_due ∷ [], (_, (refl, refl)))
Reconnects-at c (reading_headers ∷ []) [] r w s =
    (completed 0 false [] ∷ reconnect_due ∷ [], (_, (refl, refl)))
Reconnects-at c (reading_stream ∷ []) [] r w s =
    (completed 0 false [] ∷ reconnect_due ∷ [], (_, (refl, refl)))
Reconnects-at c [] (o ∷ p ∷ cs) r w s = absurd s
Reconnects-at c (o ∷ []) (p ∷ cs) r w s = absurd s
Reconnects-at c (o ∷ p ∷ ops) cs r w s = absurd s

-- After any events from the start, and beside the writes of GGA sentences, one operation of the
-- connection is in flight, with the watchdog waiting only while it reads the stream, or the
-- reconnection is waited for and no such operation is in flight; and there are events after which the
-- client connects again.
pub reachable-Reconnects :
    (es : List Event) (c : Client) → steps es (start made) ≡ some c → IsChain c × Reconnects c
unfolding IsChain
reachable-Reconnects es c e =
    let shape = steps-IsChain es (start made) c start-IsChain e in
    (shape, Reconnects-at c c.ops c.cancelled c.reconnect c.watchdog shape)
