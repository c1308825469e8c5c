-- ===== src/DoTool/Chords.antt =====
-- `keyPress` of vncdotool/client.py, and the keys that a server then takes to be held down.
use awc_remote.Base.{
  ℕ, ◌<◌, ◌^◌, ◌≡◌, refl, sym, ap, ◌∙◌, Bool, true, false, Option, none, some, List, [], ◌∷◌, ◌++◌,
  lt→ltb, arith, map, ◌==◌, if◌then◌else◌,
}
use mathlib.Core.List.{append_assoc, append-nil, reverse, reverse_aux}
use awc_remote.Failure.{ok, ◌>>>=◌}
use awc_remote.Client.{Client, Event, write, emit}
use awc_remote.Outgoing.{key_message, key_event}
use awc_remote.DoTool.Keys.{Text}
use awc_remote.DoTool.{Tool, decode_key, send_keys, key_press}

-- A key that goes down or up, and its message.
abbrev pub Stroke : Type 0
Stroke = Bool × ℕ

abbrev pub stroke_event : Stroke → Event
stroke_event (down, k) = write (key_message down k)

abbrev pub strokes : Bool → List ℕ → List Stroke
strokes down ks = map (λ k. (down, k)) ks

-- All keys down in order, and up in the opposite order.
abbrev pub chord : List ℕ → List Stroke
chord ks = strokes true ks ++ strokes false (reverse ks)

-- The keys held down, the last one first; `none` when a key goes up that is not the last one.
abbrev pub hold : List Stroke → List ℕ → Option (List ℕ)
hold [] held = some held
hold ((true, k) ∷ more) held = hold more (k ∷ held)
hold ((false, k) ∷ more) [] = none
hold ((false, k) ∷ more) (h ∷ held) = let rest = hold more held in if h == k then rest else none

abbrev pub AllKeys : List ℕ → Type 0
AllKeys [] = Unit
AllKeys (k ∷ ks) = (k < 2 ^ 32) × AllKeys ks

abbrev pub after_strokes : List Stroke → Client → Client
after_strokes ss c = record c { events = c.events ++ map stroke_event ss }

sent_keys :
    (down : Bool) (ks : List ℕ) (c : Client)
    → AllKeys ks
    → send_keys down ks c ≡ ok (after_strokes (strokes down ks) c)
unfolding send_keys key_event
sent_keys down [] c h = rw (append-nil c.events)
sent_keys down (k ∷ ks) c h = rw (
  lt→ltb k (2 ^ 32) h.0,
  sent_keys down ks (emit (write (key_message down k)) c) h.1,
  append_assoc c.events (write (key_message down k) ∷ []) (map stroke_event (strokes down ks)),
)

reversed-AllKeys : (ks more : List ℕ) → AllKeys ks → AllKeys more → AllKeys (reverse_aux ks more)
reversed-AllKeys [] more h m = m
reversed-AllKeys (k ∷ ks) more h m = reversed-AllKeys ks (k ∷ more) h.1 (h.0, m)

joined_strokes :
    (ss rs : List Stroke) → map stroke_event (ss ++ rs) ≡ map stroke_event ss ++ map stroke_event rs
joined_strokes [] rs = refl
joined_strokes (s ∷ ss) rs = ap (λ (es : List Event). stroke_event s ∷ es) (joined_strokes ss rs)

chord_sent :
    (ks : List ℕ) (c : Client)
    → AllKeys ks
    → send_keys true ks c >>>= (λ d. send_keys false (reverse ks) d)
      ≡ ok (after_strokes (chord ks) c)
chord_sent ks c h = rw (sent_keys true ks c h) (
    sent_keys false (reverse ks) (after_strokes (strokes true ks) c) (reversed-AllKeys ks [] h tt)
    ∙ ap (λ (es : List Event). ok (record c { events = es }))
        (append_assoc c.events (map stroke_event (strokes true ks))
            (map stroke_event (strokes false (reverse ks)))
          ∙ ap (λ (es : List Event). c.events ++ es)
              (sym (joined_strokes (strokes true ks) (strokes false (reverse ks))))))

held_down :
    (ks : List ℕ) (more : List Stroke) (held : List ℕ)
    → hold (strokes true ks ++ more) held ≡ hold more (reverse_aux ks held)
held_down [] more held = refl
held_down (k ∷ ks) more held = held_down ks more (k ∷ held)

same_key : (k : ℕ) → k == k ≡ true
same_key k = ground arith

released : (ks held : List ℕ) → hold (strokes false ks) (ks ++ held) ≡ some held
released [] held = refl
released (k ∷ ks) held = rw (same_key k) (released ks held)

reversed_onto :
    (ks more held : List ℕ) → reverse_aux ks (more ++ held) ≡ reverse_aux ks more ++ held
reversed_onto [] more held = refl
reversed_onto (k ∷ ks) more held = reversed_onto ks (k ∷ more) held

chord_held : (ks held : List ℕ) → hold (chord ks) held ≡ some held
chord_held ks held =
    held_down ks (strokes false (reverse ks)) held
    ∙ ap (hold (strokes false (reverse ks))) (reversed_onto ks [] held)
    ∙ released (reverse ks) held

-- A key press whose text decodes to keysyms of 32 bits sends the keys down in order and up in the opposite
-- order, changes nothing else, and for whatever keys were held each key that goes up is the last one that went down, and
-- the same keys are held at the end.
pub key_press-chord :
    (k : Text) (ks held : List ℕ) (t : Tool)
    → decode_key t.wishes k ≡ ok ks
    → AllKeys ks
    → (key_press k t ≡ ok (record t { client = after_strokes (chord ks) t.client }))
      × (hold (chord ks) held ≡ some held)
unfolding key_press
key_press-chord k ks held t e h = (rw (e, chord_sent ks t.client h), chord_held ks held)
