-- ===== src/Events/Poll.antt =====
-- PollKeyboard and Reset of GoldfishEventsDxe.c over a device that answers its register from a queue
-- of words, as REG_READ is documented: three words to an event, and 0 when the queue is empty.
use edk2_uemu.Common.{
  ℕ, zero, suc, ◌+◌, ◌<◌, ◌≡◌, ◌≢◌, ◌∙◌, Bool, some, List, [], ◌∷◌, length, arith,
}
use edk2_uemu.Mmio.{Mmio}
use edk2_uemu.Events.Keys.{Dev, convert_key_code}
use edk2_uemu.Events.Device.{reg_read, handle_event, poll_loop, drain_loop}

-- Reading the register at `address` takes the first of the words that wait in the device.
pub record IsEventQueue {D : Type 0} (io : Mmio D) (address : ℕ) (waiting : D → List ℕ)
    : Type 0 where
  pub empty :
      (d : D)
      → waiting d ≡ []
      → ((io.read32 address d).0 ≡ 0) × (waiting (io.read32 address d).1 ≡ [])
  pub next :
      (d : D) (w : ℕ) (ws : List ℕ)
      → waiting d ≡ w ∷ ws
      → ((io.read32 address d).0 ≡ w) × (waiting (io.read32 address d).1 ≡ ws)

-- An input event of the device.
pub record Event : Type 0 where
  pub type : ℕ
  pub code : ℕ
  pub value : ℕ

abbrev pub words_of : List Event → List ℕ → List ℕ
words_of [] rest = rest
words_of (e ∷ es) rest = e.type ∷ e.code ∷ e.value ∷ words_of es rest

-- No event has type 0, which ends a batch.
abbrev pub IsBatch : List Event → Type 0
IsBatch [] = Unit
IsBatch (e ∷ es) = (e.type ≢ 0) × IsBatch es

-- What stands behind a batch: nothing, or a word 0.
abbrev pub IsEnd : List ℕ → Type 0
IsEnd [] = Unit
IsEnd (w ∷ ws) = w ≡ 0

abbrev pub after_end : List ℕ → List ℕ
after_end [] = []
after_end (w ∷ ws) = ws

-- The driver's data after the events of a batch.
unfoldable pub process : Dev → Bool → List Event → Dev × Bool
process dev have_notify [] = (dev, have_notify)
process dev have_notify (e ∷ es) =
    let (dev', have_notify') = handle_event dev have_notify e.type e.code e.value in
    process dev' have_notify' es

handle_event-mmio_base :
    (dev : Dev) (have_notify : Bool) (type code value : ℕ)
    → (handle_event dev have_notify type code value).0.mmio_base ≡ dev.mmio_base
unfolding handle_event convert_key_code
handle_event-mmio_base dev have_notify type code value = ground arith

module _ {D : Type 0} (io : Mmio D) (base : ℕ) (waiting : D → List ℕ)
    (queue : IsEventQueue io (base + reg_read) waiting) where
  -- Three reads take an event.
  take_event :
      (d : D) (e : Event) (es : List Event) (rest : List ℕ)
      → waiting d ≡ words_of (e ∷ es) rest
      → let (type, d1) = io.read32 (base + reg_read) d in
        let (code, d2) = io.read32 (base + reg_read) d1 in
        let (value, d3) = io.read32 (base + reg_read) d2 in
        (type ≡ e.type) × (code ≡ e.code) × (value ≡ e.value) × (waiting d3 ≡ words_of es rest)
  take_event d e es rest h =
      let (t, h1) = queue.next d e.type (e.code ∷ e.value ∷ words_of es rest) h in
      let (c, h2) = queue.next _ e.code (e.value ∷ words_of es rest) h1 in
      let (v, h3) = queue.next _ e.value (words_of es rest) h2 in (t, c, v, h3)

  take_end :
      (d : D) (rest : List ℕ)
      → IsEnd rest
      → waiting d ≡ rest
      → ((io.read32 (base + reg_read) d).0 ≡ 0)
        × (waiting (io.read32 (base + reg_read) d).1 ≡ after_end rest)
  take_end d [] h e = queue.empty d e
  take_end d (w ∷ ws) h e = let (v, h1) = queue.next d w ws e in (v ∙ h, h1)

  pub poll_loop_lem :
      (fuel : ℕ) (dev : Dev) (have_notify : Bool) (d : D) (es : List Event) (rest : List ℕ)
      → dev.mmio_base ≡ base
      → IsBatch es
      → IsEnd rest
      → waiting d ≡ words_of es rest
      → length es < fuel
      → (d' : D) × (poll_loop io fuel dev have_notify d
          ≡ some ((process dev have_notify es).0, (process dev have_notify es).1, d'))
        × (waiting d' ≡ after_end rest)
  unfolding poll_loop process
  poll_loop_lem zero dev have_notify d es rest b batch end w f = absurd (omega arith)
  poll_loop_lem (suc fuel) dev have_notify d [] rest b batch end w f =
      let (t, w') = take_end d rest end w in
      ((io.read32 (base + reg_read) d).1, rw b (ground (arith, t)), w')
  poll_loop_lem (suc fuel) dev have_notify d (e ∷ es) rest b batch end w f =
      let (t, c, v, w3) = take_event d e es rest w in
      let (dev', have_notify') = handle_event dev have_notify e.type e.code e.value in
      let kept = handle_event-mmio_base dev have_notify e.type e.code e.value in
      let d1 = (io.read32 (base + reg_read) d).1 in
      let d2 = (io.read32 (base + reg_read) d1).1 in
      let d3 = (io.read32 (base + reg_read) d2).1 in
      let (d', runs, w') =
        poll_loop_lem fuel dev' have_notify' d3 es rest (kept ∙ b) batch.1 end w3 (omega arith) in
      (d', ground (arith, b, t, c, v, batch.0, runs), w')

  pub drain_loop_lem :
      (fuel : ℕ) (dev : Dev) (d : D) (es : List Event) (rest : List ℕ)
      → dev.mmio_base ≡ base
      → IsBatch es
      → IsEnd rest
      → waiting d ≡ words_of es rest
      → length es < fuel
      → (d' : D) × (drain_loop io fuel dev d ≡ some d') × (waiting d' ≡ after_end rest)
  unfolding drain_loop
  drain_loop_lem zero dev d es rest b batch end w f = absurd (omega arith)
  drain_loop_lem (suc fuel) dev d [] rest b batch end w f =
      let (t, w') = take_end d rest end w in
      ((io.read32 (base + reg_read) d).1, rw b (ground (arith, t)), w')
  drain_loop_lem (suc fuel) dev d (e ∷ es) rest b batch end w f =
      let (t, c, v, w3) = take_event d e es rest w in
      let d1 = (io.read32 (base + reg_read) d).1 in
      let d2 = (io.read32 (base + reg_read) d1).1 in
      let d3 = (io.read32 (base + reg_read) d2).1 in
      let (d', runs, w') = drain_loop_lem fuel dev d3 es rest b batch.1 end w3 (omega arith) in
      (d', ground (arith, b, t, c, v, batch.0, runs), w')
