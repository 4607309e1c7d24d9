-- ===== src/Keyboard.antt =====
-- TP2-SO-2025/Kernel/drivers/keyboard.c. The console, the semaphores and the key handlers get effects; an
-- int8_t is its byte, so EOF is 255. `aligned` says whether the screen position is a multiple of the
-- tab's width after that many spaces of a tab.
pub mod Scancodes
pub mod Ring
pub mod Tab
pub mod Handlers
mod Tests
use tp_so_grupo.Base.{
  ℕ, zero, suc, ◌-◌, ◌+◌, ◌%◌, List, [], ◌∷◌, ◌++◌, Bool, true, false, ◌&&◌, ◌||◌, not, Option,
  none, some, ◌==◌, ltb, if◌then◌else◌, get_or, get_elem?, set,
}
use Scancodes.{scancode_map, is_keycode, is_printable, to_upper, is_pressed, make_code}

abbrev pub buffer_size : ℕ
buffer_size = 1024

abbrev pub end_of_file : ℕ
end_of_file = 255

-- `keyboard_options`
pub record Options : Type 0 where
  pub show : Bool
  pub await_return : Bool
  pub modify : Bool

pub record Keyboard : Type 0 where
  pub shift : Bool
  pub caps_lock : Bool
  pub control : Bool
  pub buffer : List ℕ
  pub to_write : ℕ
  pub to_read : ℕ
  pub options : Options

pub data KeyEffect : Type 0 where
  put_char : ℕ → KeyEffect
  post_buffer clear_previous_character kill_foreground : KeyEffect
  run_handler : ℕ → KeyEffect

-- INC_MOD, SUB_MOD and DEC_MOD on the indices.
abbrev pub inc_mod : ℕ → ℕ
inc_mod x = (x + 1) % buffer_size

abbrev pub sub_mod : ℕ → ℕ → ℕ
sub_mod a b = if ltb a b then buffer_size - b + a else a - b

-- BUFFER_IS_FULL. The source's difference is an int: below 0 its remainder is not positive, so the
-- test fails as it does here.
abbrev pub is_full : Keyboard → Bool
is_full k = (k.to_write - k.to_read) % buffer_size == buffer_size - 1

-- The index before `to_write`.
abbrev pub last_written : Keyboard → ℕ
last_written k = get_or k.buffer (sub_mod k.to_write 1) 0

abbrev when : Bool → KeyEffect → List KeyEffect
when true e = e ∷ []
when false e = []

-- `addCharToBuffer` of another character than a tab.
unfoldable pub add_one : (ascii : ℕ) (show : Bool) → Keyboard → List KeyEffect × Keyboard
add_one ascii show k = (
  when show (put_char ascii) ++ when k.options.modify post_buffer,
  record k { buffer = set k.buffer k.to_write ascii; to_write = inc_mod k.to_write },
)

-- The spaces of a tab, from the one with the number `n` on; none if more than `fuel` are wanted.
unfoldable pub add_tab :
    (fuel : ℕ) (aligned : ℕ → Bool) (n : ℕ) (show : Bool)
    → Keyboard
    → Option (List KeyEffect × Keyboard)
unfolding add_one
add_tab zero aligned n show k = none
add_tab (suc fuel) aligned n show k =
    let (effects, added) = add_one b' ' show k in
    let rest : Option (List KeyEffect × Keyboard) = elim (add_tab fuel aligned (suc n) show added) [
      | none ↦ none
      | some (more, l) ↦ some (effects ++ more, l)
    ] in
    if is_full added || aligned (suc n) then some (effects, added) else rest

unfoldable pub add_char_to_buffer :
    (fuel : ℕ) (aligned : ℕ → Bool) (ascii : ℕ) (show : Bool)
    → Keyboard
    → Option (List KeyEffect × Keyboard)
unfolding add_one add_tab
add_char_to_buffer fuel aligned ascii show k =
    if ascii == 9 then add_tab fuel aligned 0 show k else some (add_one ascii show k)

abbrev pub back_one : Keyboard → Keyboard
back_one k = record k { to_write = sub_mod k.to_write 1 }

-- `clearBuffer`: the count that it returns, and the one character that it takes away.
unfoldable pub clear_buffer : Keyboard → ℕ × (List KeyEffect × Keyboard)
clear_buffer k =
    let count = sub_mod k.to_write k.to_read in
    if count == 0 then (0, ([], k)) else (count, (clear_previous_character ∷ [], back_one k))

-- Does the loop of `getKeyboardCharacter` end here? Else it waits for `buffer_sem`.
abbrev pub is_ready : Keyboard → Bool
is_ready k =
    not (k.to_write == k.to_read)
    && (not k.options.await_return || (last_written k == 10 || last_written k == end_of_file))

-- From the loop on; none while the call waits.
unfoldable pub take_character : Keyboard → Option (ℕ × Keyboard)
take_character k =
    if is_ready k
    then some (
      get_or k.buffer k.to_read 0,
      record k {
        to_read = inc_mod k.to_read;
        options = record { show = false; await_return = false; modify = false };
      },
    )
    else none

unfoldable pub get_keyboard_character : Options → Keyboard → Option (ℕ × Keyboard)
unfolding take_character
get_keyboard_character ops k = take_character (record k { options = record ops { modify = true } })

-- The modifier keys.
unfoldable pub note_modifiers : (scancode : ℕ) → Keyboard → Keyboard
note_modifiers scancode k =
    let code = make_code scancode in
    let pressed = is_pressed scancode in
    if code == 0x2A || code == 0x36
    then record k { shift = pressed }
    else if code == 0x1D
    then record k { control = pressed }
    else if code == 0x3A
    then record k { caps_lock = if pressed then not k.caps_lock else k.caps_lock }
    else k

-- The entry of the table, in capitals if the lock is on.
unfoldable pub character_of : (scancode : ℕ) → Keyboard → ℕ
character_of scancode k =
    let mapped : ℕ = elim (get_elem? scancode_map scancode) [
      | none ↦ 0
      | some (plain, shifted) ↦ if k.shift then shifted else plain
    ] in
    if k.caps_lock then to_upper mapped else mapped

-- The branch of `keyboardHandler` for a key that is typed while a process reads; none for a tab of
-- more than `fuel` spaces. The Boolean says that the handler returns at once.
unfoldable pub type_key :
    (fuel : ℕ) (aligned : ℕ → Bool) (scancode : ℕ)
    → Keyboard
    → Option (Bool × (List KeyEffect × Keyboard))
unfolding add_char_to_buffer character_of
type_key fuel aligned scancode k =
    let c = character_of scancode k in
    let some_unread = not (k.to_write == k.to_read) in
    let added : ℕ → Option (Bool × (List KeyEffect × Keyboard)) = λ a.
      elim (add_char_to_buffer fuel aligned a k.options.show k) [
        | none ↦ none
        | some r ↦ some (false, r)
      ] in
    if is_printable k.shift scancode
    then (if c == 0x1C
        then (if some_unread && last_written k == 10 then some (true, ([], k)) else added 10)
        else if c == 0x0F
        then added 9
        else added c)
    else if c == 0x0E && some_unread
    then some (false, (clear_previous_character ∷ [], back_one k))
    else some (false, ([], k))

-- `keyboardHandler` from the test of the key on. `registered` says which keys have a handler in
-- `KeyFnMap`. The result is what it returns.
unfoldable pub handle_pressed :
    (fuel : ℕ) (aligned : ℕ → Bool) (registered : ℕ → Bool) (scancode : ℕ)
    → Keyboard
    → Option (ℕ × (List KeyEffect × Keyboard))
unfolding add_char_to_buffer type_key
handle_pressed fuel aligned registered scancode k =
    let handler = when (registered scancode) (run_handler scancode) in
    if not (is_pressed scancode && is_keycode scancode)
    then some (scancode, ([], k))
    else if k.control && make_code scancode == 0x2E
    then some (scancode, (kill_foreground ∷ [], k))
    else if k.control && make_code scancode == 0x20
    then (if k.to_write == k.to_read
        then some (end_of_file, add_one end_of_file false k)
        else some (end_of_file, ([], k)))
    else if k.options.modify
    then elim (type_key fuel aligned scancode k) [
      | none ↦ none
      | some (true, r) ↦ some (scancode, r)
      | some (false, (effects, l)) ↦ some (scancode, (effects ++ handler, l))
    ]
    else some (scancode, (handler, k))

unfoldable pub keyboard_handler :
    (fuel : ℕ) (aligned : ℕ → Bool) (registered : ℕ → Bool) (scancode : ℕ)
    → Keyboard
    → Option (ℕ × (List KeyEffect × Keyboard))
unfolding note_modifiers handle_pressed
keyboard_handler fuel aligned registered scancode k =
    if is_full k
    then some (scancode, ([], record k { to_read = 0; to_write = 0 }))
    else handle_pressed fuel aligned registered scancode (note_modifiers scancode k)
