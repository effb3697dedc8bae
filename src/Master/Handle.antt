-- ===== src/Master/Handle.antt =====
-- `mbus_handle` of mbus/mbus-protocol-aux.h: its options, with `mbus_context_set_option`, and its
-- functions `send` and `recv` as an interface.
use libmbus.Base.{
  ℕ, ℤ, pos, negsuc, minus_one, Bool, false, Option, none, some, leb, if◌then◌else◌, u8, ◌-◌, ◌%◌,
  zero, suc,
}
use libmbus.Frame.{Frame}
use libmbus.Link.Serial.{RecvResult}

-- `MBUS_FRAME_PURGE_*`: which frames are taken for an echo.
pub data Purge : Type 0 where
  purge_none purge_m2s purge_s2m : Purge

-- The options of `mbus_handle`, and whether its callback `found_event` is set. The file descriptor
-- and what stands behind it are the state of the transport.
pub record Handle : Type 0 where
  pub max_data_retry : ℕ
  pub max_search_retry : ℕ
  pub purge_first_frame : Purge
  pub has_found_event : Bool

-- The options as `mbus_context_serial` and `mbus_context_tcp` set them.
abbrev pub default_handle : Handle
default_handle = record {
  max_data_retry = 3;
  max_search_retry = 1;
  purge_first_frame = purge_m2s;
  has_found_event = false;
}

-- `mbus_context_option`
pub data ContextOption : Type 0 where
  max_data_retry_option max_search_retry_option purge_first_frame_option : ContextOption

unfoldable pub set_retry : ℤ → (ℕ → Handle) → Handle → ℤ × Handle
set_retry (negsuc n) store h = (minus_one, h)
set_retry (pos n) store h = if leb n 9 then (pos 0, store n) else (minus_one, h)

unfoldable pub set_purge : ℤ → Handle → ℤ × Handle
set_purge (negsuc n) h = (minus_one, h)
set_purge (pos zero) h = (pos 0, record h { purge_first_frame = purge_none })
set_purge (pos (suc zero)) h = (pos 0, record h { purge_first_frame = purge_m2s })
set_purge (pos (suc (suc zero))) h = (pos 0, record h { purge_first_frame = purge_s2m })
set_purge (pos (suc (suc (suc n)))) h = (minus_one, h)

-- `mbus_context_set_option`
unfoldable pub context_set_option : Handle → ContextOption → ℤ → ℤ × Handle
context_set_option h max_data_retry_option value =
    set_retry value (λ n. record h { max_data_retry = n }) h
context_set_option h max_search_retry_option value =
    set_retry value (λ n. record h { max_search_retry = n }) h
context_set_option h purge_first_frame_option value = set_purge value h

-- The functions `recv` and `send` of the handle; `S` is the state behind it. Both change the frame.
pub record Transport (S : Type 0) : Type 0 where
  pub recv : S → Frame → RecvResult × Frame × S
  pub send : S → Frame → ℤ × Frame × S

-- A computation on the state of the transport; `none` says that the fuel of a loop was used up.
abbrev pub Run {ℓ} : Type 0 → Type ℓ → Type ℓ
Run S A = S → Option (A × S)

abbrev pub after {ℓ κ} :
    {S : Type 0} {A : Type ℓ} {B : Type κ} → Option (A × S) → (A → Run S B) → Option (B × S)
after none k = none
after (some (a, s)) k = k a s

infixl 5 ◌>>=◌
abbrev pub ◌>>=◌ {ℓ κ} : {S : Type 0} {A : Type ℓ} {B : Type κ} → Run S A → (A → Run S B) → Run S B
m >>= k = λ s. after (m s) k

abbrev pub ret {ℓ} : {S : Type 0} {A : Type ℓ} → A → Run S A
ret a = λ s. some (a, s)

-- An `int` stored in an `unsigned char`.
abbrev pub to_u8 : ℤ → ℕ
to_u8 (pos n) = u8 n
to_u8 (negsuc n) = 255 - n % 256
