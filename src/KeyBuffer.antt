-- ===== src/KeyBuffer.antt =====
-- The ring of bytes that the keyboard and the mouse driver share: `struct keyboard_buffer` of
-- os/include/keyboard.h with the interrupt handlers and readers of os/driver/keyboard.c and
-- os/driver/mouse.c. `p_head` and `p_tail` are indices into `buf`, 100 standing for its end.
pub mod Fifo
mod Tests
use kalinote_os.Base.{ℕ, ◌+◌, ◌-◌, ◌%◌, ◌^◌, Option, none, some, ◌==◌, if◌then◌else◌, update}

abbrev pub kb_buf_size : ℕ
kb_buf_size = 100

pub record Buffer : Type 0 where
  pub head : ℕ
  pub tail : ℕ
  pub count : ℕ
  pub buf : ℕ → ℕ

-- What both `_init` functions leave in the buffer.
pub init : Buffer
init = record { head = 0; tail = 0; count = 0; buf = λ i. 0 }

-- `keyboard_handler` and `mouse_handler`, for the byte that the port gives.
pub handler : Buffer → ℕ → Buffer
handler b x =
    let head : ℕ = if b.head == kb_buf_size then 0 else b.head in
    record b { buf = update b.buf head x; count = (b.count + 1) % 2 ^ 32; head = head + 1 }

-- `get_scancode` and `get_mousecode`; `none` while they wait for a byte.
pub get_code : Buffer → Option (ℕ × Buffer)
get_code b =
    let tail : ℕ = if b.tail == kb_buf_size then 0 else b.tail in
    if b.count == 0
    then none
    else some (b.buf tail, record b { count = (b.count + 2 ^ 32 - 1) % 2 ^ 32; tail = tail + 1 })
