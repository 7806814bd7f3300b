-- ===== src/Emmc/Machine.antt =====
-- The controller that firmware/usbarmory/src/emmc.rs drives. What it answers is a parameter, a function
-- of what the driver has done to it; the driver's calls are functions on the list of these events.
use usbarmory_rust.Prelude.{
  ℕ, zero, suc, ◌≡◌, ap, Bool, true, false, Option, none, some, List, ◌∷◌, if◌then◌else◌,
}
use usbarmory_rust.Prelude.Bytes.{Bytes}
use usbarmory_rust.Prelude.Outcome.{Outcome, ok, err, panic}
use usbarmory_rust.Emmc.Status.{Status}

-- The registers of the uSDHC that the driver uses.
pub data Reg : Type 0 where
  pres_state int_status prot_ctrl mix_ctrl ds_addr blk_att wtmk_lvl : Reg
  cmd_arg cmd_xfr_typ cmd_rsp0 cmd_rsp1 cmd_rsp2 cmd_rsp3 sys_ctrl vend_spec : Reg

pub data Event : Type 0 where
  reading : Reg → Event
  writing : Reg → ℕ → Event
  clearing : Reg → ℕ → Event
  resetting : Reg → Event
  waiting : ℕ → Event

-- After the events so far, the newest first: what a register reads as, and what the controller
-- has written to the memory at an address. How often a condition is evaluated before a timeout of 100 ms, and
-- how often at most a loop without a timeout runs, are numbers.
pub record Controller : Type 0 where
  pub answer : List Event → Reg → ℕ
  pub memory : List Event → ℕ → Bytes
  pub polls : ℕ
  pub spins : ℕ

-- `Error`
pub data Error : Type 0 where
  timeout : Error
  not_in_transfer_state : Error
  other : Error
  card : Status → Error

-- Why a call does not return `Ok`: an error, `memlog_flush_and_reset!`, or a loop without a timeout
-- that has not ended.
pub data Stop : Type 0 where
  error : Error → Stop
  restart : Stop
  spinning : Stop

-- `Width`
pub data Width : Type 0 where
  b1 : Width
  b8 : Width

-- `eMMC`; `verbose` only governs what is logged.
pub record Emmc : Type 0 where
  pub selected : Option ℕ
  pub blocks : ℕ
  pub verbose : Bool
  pub width : Width

pub record Machine : Type 0 where
  pub emmc : Emmc
  pub events : List Event

abbrev pub Run : Type 0 → Type 0
Run A = Machine → Outcome Stop A × Machine

abbrev carry : {A B : Type 0} → (A → Run B) → Outcome Stop A × Machine → Outcome Stop B × Machine
carry next (ok value, m) = next value m
carry next (err stop, m) = (err stop, m)
carry next (panic, m) = (panic, m)

infixl 5 ◌>>=◌ ◌>>◌
abbrev pub ◌>>=◌ : {A B : Type 0} → Run A → (A → Run B) → Run B
call >>= next = λ m. carry next (call m)

abbrev pub ◌>>◌ : {A B : Type 0} → Run A → Run B → Run B
first >> second = first >>= λ done. second

pub >>=-ok :
    {A B : Type 0} (call : Run A) (next : A → Run B) (m : Machine) {value : A} {m' : Machine}
    → call m ≡ (ok value, m')
    → (call >>= next) m ≡ next value m'
>>=-ok call next m e = ap (carry next) e

abbrev pub return : {A : Type 0} → A → Run A
return value m = (ok value, m)

abbrev pub throw : {A : Type 0} → Stop → Run A
throw stop m = (err stop, m)

abbrev pub panics : {A : Type 0} → Run A
panics m = (panic, m)

abbrev pub assert : Bool → Run (Unit {0})
assert true = return tt
assert false = panics

-- `expect`
abbrev pub expected : {A : Type 0} → Outcome Stop A × Machine → Outcome Stop A × Machine
expected (err (error e), m) = (panic, m)
expected (err restart, m) = (err restart, m)
expected (err spinning, m) = (err spinning, m)
expected (ok value, m) = (ok value, m)
expected (panic, m) = (panic, m)

abbrev pub expect : {A : Type 0} → Run A → Run A
expect call m = expected (call m)

abbrev pub log_event : Event → Run (Unit {0})
log_event e m = (ok tt, record m { events = e ∷ m.events })

abbrev pub write : Reg → ℕ → Run (Unit {0})
write r value = log_event (writing r value)

abbrev pub clear : Reg → ℕ → Run (Unit {0})
clear r mask = log_event (clearing r mask)

abbrev pub reset : Reg → Run (Unit {0})
reset r = log_event (resetting r)

-- `time::wait`, in microseconds
abbrev pub wait : ℕ → Run (Unit {0})
wait us = log_event (waiting us)

abbrev pub this : Run Emmc
this m = (ok m.emmc, m)

abbrev pub set_this : Emmc → Run (Unit {0})
set_this emmc m = (ok tt, record m { emmc = emmc })

module _ (controller : Controller) where
  abbrev pub read : Reg → Run ℕ
  read r m = (ok (controller.answer m.events r), record m { events = reading r ∷ m.events })

  abbrev pub rmw : Reg → (ℕ → ℕ) → Run (Unit {0})
  rmw r f = read r >>= λ value. write r (f value)

  abbrev pub memory : ℕ → Run Bytes
  memory addr m = (ok (controller.memory m.events addr), m)

  -- `util::wait_for_or_timeout` on a register, with the value that met the condition.
  abbrev pub wait_for_or_timeout : ℕ → Reg → (ℕ → Bool) → Run (Option ℕ)
  wait_for_or_timeout zero r done = return none
  wait_for_or_timeout (suc n) r done =
      let rest = wait_for_or_timeout n r done in
      read r >>= λ value. if done value then return (some value) else rest

  -- A `while` loop that reads a register until a condition holds.
  abbrev pub spin_until : ℕ → Reg → (ℕ → Bool) → Run (Unit {0})
  spin_until zero r done = throw spinning
  spin_until (suc n) r done =
      let rest = spin_until n r done in read r >>= λ value. if done value then return tt else rest
