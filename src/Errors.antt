-- ===== src/Errors.antt =====
-- app/error.c: what is remembered of the errors that the tests report. What is displayed or sent is not
-- modelled, nor is the lock.
pub mod Summary
pub mod Collect
pub mod Stop
mod Examples
use memtest86plus.Base.{
  ℕ, zero, suc, ◌+◌, ◌-◌, ◌*◌, ◌/◌, ◌%◌, bit_and, bit_or, bit_xor, Bool, true, false, ◌&&◌, ◌||◌,
  not, List, [], ◌∷◌, Option, none, some, ltb, leb, ◌==◌, if◌then◌else◌, get_or, set, add64, sub64,
  shr64, u64_max, ◌>>=◌,
}
use memtest86plus.Config.{ErrorMode}
use memtest86plus.Badram.{Table, insert, init}
use memtest86plus.Vm.{page_of}

-- `error_type_t`
pub data ErrorType : Type 0 where
  addr_fault data_fault parity_fault uecc_fault cecc_fault new_mode : ErrorType

-- `page_offs_t`
pub record PageOffset : Type 0 where
  pub page : ℕ
  pub offset : ℕ

-- `error_info_t`
pub record ErrorInfo : Type 0 where
  pub min_addr : PageOffset
  pub max_addr : PageOffset
  pub bad_bits : ℕ
  pub min_bits : ℕ
  pub max_bits : ℕ
  pub total_bits : ℕ
  pub run_length : ℕ
  pub max_run : ℕ
  pub last_addr : ℕ
  pub last_xor : ℕ

-- `ERROR_LIMIT` and `INT_MAX`
abbrev pub error_limit : ℕ
error_limit = 999_999_999_999

abbrev pub int_max : ℕ
int_max = 0x7fff_ffff

-- What `error_init` sets `error_info` to.
abbrev pub first_info : ErrorInfo
first_info = record {
  min_addr = record { page = u64_max; offset = 4095 };
  max_addr = record { page = 0; offset = 0 };
  bad_bits = 0;
  min_bits = 255;
  max_bits = 0;
  total_bits = 0;
  run_length = 0;
  max_run = 0;
  last_addr = 0;
  last_xor = 0;
}

-- The loop that counts the bits in error, at bit `i`.
pub count_bits : ℕ → ℕ → ℕ → ℕ
count_bits xor i zero = 0
count_bits xor i (suc left) =
    (if bit_and (shr64 xor i) 1 == 1 then 1 else 0) + count_bits xor (i + 1) left

abbrev pub bits_of : ℕ → ℕ
bits_of xor = count_bits xor 0 64

-- The address range: the new bound, and whether it has changed.
pub update_min : PageOffset → ℕ → ℕ → PageOffset × Bool
update_min m page offset =
    if ltb page m.page
    then (record { page = page; offset = offset }, true)
    else if (m.page == page) && ltb offset m.offset
    then (record m { offset = offset }, true)
    else (m, false)

pub update_max : PageOffset → ℕ → ℕ → PageOffset × Bool
update_max m page offset =
    if ltb m.page page
    then (record { page = page; offset = offset }, true)
    else if (m.page == page) && ltb m.offset offset
    then (record m { offset = offset }, true)
    else (m, false)

-- The length of the run of contiguous errors that `addr` belongs to.
pub next_run : ErrorInfo → ℕ → ℕ
next_run info addr =
    if ltb 0 info.max_run && ((addr == add64 info.last_addr 8) || (addr == sub64 info.last_addr 8))
    then add64 info.run_length 1
    else 1

-- The second result tells whether the statistics have changed.
pub update_error_info : ℕ → ErrorInfo → ℕ → ℕ → ℕ → ℕ → ErrorInfo × Bool
update_error_info error_count info page offset addr xor =
    let (min_addr, lower) = update_min info.min_addr page offset in
    let (max_addr, higher) = update_max info.max_addr page offset in
    let bits = bits_of xor in
    let run = next_run info addr in
    (
      record info {
        min_addr = min_addr;
        max_addr = max_addr;
        bad_bits = bit_or info.bad_bits xor;
        min_bits = if ltb bits info.min_bits then bits else info.min_bits;
        max_bits = if ltb info.max_bits bits then bits else info.max_bits;
        total_bits =
            if ltb 0 bits && ltb error_count error_limit
            then add64 info.total_bits bits
            else info.total_bits;
        run_length = run;
        max_run = if ltb info.max_run run then run else info.max_run;
      },
      lower
          || higher
          || ltb info.max_bits bits
          || ltb bits info.min_bits
          || not (bit_xor info.bad_bits xor == 0)
          || ltb info.max_run run,
    )

-- The settings and the state of the hardware that a report reads.
pub record ErrorSettings : Type 0 where
  pub error_mode : ErrorMode
  pub continue_on_error : Bool
  pub is_master : Bool
  pub mapped_window : ℕ
  pub test_num : ℕ
  pub ecc_count : ℕ

-- The variables that a report changes: `test_errors` is the field `errors` of each entry of `test_list`.
pub record ErrorState : Type 0 where
  pub info : ErrorInfo
  pub error_count : ℕ
  pub error_count_cecc : ℕ
  pub last_error_mode : ErrorMode
  pub test_errors : List ℕ
  pub patterns : Table
  pub testpass : ℕ

pub error_init : ErrorState → ErrorState
error_init st = record st { info = first_info; error_count = 0 }

abbrev pub mode_number : ErrorMode → ℕ
mode_number ErrorMode.none = 0
mode_number ErrorMode.summary = 1
mode_number ErrorMode.address = 2
mode_number ErrorMode.badram = 3
mode_number ErrorMode.memmap = 4
mode_number ErrorMode.pages = 5

-- `new_header`
pub is_new_header : ErrorSettings → ErrorState → Bool
is_new_header g st =
    ((st.error_count == 0) && (st.error_count_cecc == 0))
    || not (mode_number g.error_mode == mode_number st.last_error_mode)

-- The first `switch` on the type of the error.
pub info_for : ErrorType → ErrorState → ℕ → ℕ → ℕ → ℕ → ErrorInfo
info_for addr_fault st page offset a xor =
    (update_error_info st.error_count st.info page offset a 0).0
info_for data_fault st page offset a xor =
    (update_error_info st.error_count st.info page offset a xor).0
info_for _ st page offset a xor = st.info

-- The error counts.
pub count_error : ErrorSettings → ErrorType → ErrorState → ErrorState
count_error g new_mode st = st
count_error g cecc_fault st =
    let n = add64 st.error_count_cecc g.ecc_count in
    if ltb n 999999 then record st { error_count_cecc = n } else st
count_error g _ st =
    let errors = get_or st.test_errors g.test_num 0 in
    record st {
      error_count = if ltb st.error_count error_limit then st.error_count + 1 else st.error_count;
      test_errors =
          if ltb errors int_max then set st.test_errors g.test_num (errors + 1) else st.test_errors;
    }

-- The last address, for all types but two.
pub remember : ErrorType → ℕ → ℕ → ErrorState → ErrorState
remember parity_fault a xor st = st
remember cecc_fault a xor st = st
remember _ a xor st = record st { info = record (st.info) { last_addr = a; last_xor = xor } }

-- The table of the patterns behind `badram_insert`, if it is called; `none` is an access out of bounds.
pub collect : ErrorSettings → Bool → Table → ℕ → ℕ → Option Table
collect g use_for_badram t page offset =
    if leb 3 (mode_number g.error_mode) && use_for_badram
    then (do (t', changed) ← insert g.error_mode t page offset; some t')
    else some t

-- The table of patterns that a report starts with: a new header empties it.
pub table_before : ErrorSettings → ErrorState → Table
table_before g st = if is_new_header g st then init else st.patterns

-- The changes of the variables behind the table `t` of the patterns.
pub note_error : ErrorSettings → ErrorType → ℕ → ℕ → Table → ErrorState → ErrorState
note_error g type a xor t st =
    let info = info_for type st (page_of g.mapped_window a) (bit_and a 0xfff) a xor in
    remember type a xor
      (count_error g type (record st { patterns = t; last_error_mode = g.error_mode; info = info }))

-- The end of `common_err`: the master stays in the loop that shows the failure.
pub stop_on_error : ErrorSettings → ErrorState → ErrorState × Bool
stop_on_error g st =
    if not g.continue_on_error && ltb 0 st.error_count && g.is_master
    then (record st { testpass = 2 }, true)
    else (st, false)

-- `common_err`: the new state, and whether the CPU stays in the endless loop that shows the failure.
pub common_err :
    ErrorSettings → ErrorType → ℕ → ℕ → ℕ → Bool → ErrorState → Option (ErrorState × Bool)
common_err g type a good bad use_for_badram st =
    if (st.testpass == 2) && not g.continue_on_error then some (st, false) else (do
      t ← collect g use_for_badram (table_before g st) (page_of g.mapped_window a) (bit_and a 0xfff)
      some (stop_on_error g (note_error g type a (bit_xor good bad) t st)))

-- The addresses that the BIOS uses for USB keyboards.
abbrev pub is_bios_address : ℕ → Bool
is_bios_address a = (a == 0x4e0) || (a == 0x410)

pub data_error : ErrorSettings → ℕ → ℕ → ℕ → Bool → ErrorState → Option (ErrorState × Bool)
data_error g a good bad use_for_badram st =
    if is_bios_address a
    then some (st, false)
    else common_err g data_fault a good bad use_for_badram st

-- `addr_error`; its second address is not used.
pub addr_error : ErrorSettings → ℕ → ℕ → ℕ → ErrorState → Option (ErrorState × Bool)
addr_error g a good bad st = common_err g addr_fault a good bad false st

-- A word in error, and what the report of it reads that changes during a run: the window that is mapped
-- then, the number of the test, and whether the CPU is the master.
pub record Fault : Type 0 where
  pub addr : ℕ
  pub good : ℕ
  pub bad : ℕ
  pub window : ℕ
  pub test_num : ℕ
  pub is_master : Bool

abbrev pub settings_for : ErrorSettings → Fault → ErrorSettings
settings_for g f = record g {
  mapped_window = f.window;
  test_num = f.test_num;
  is_master = f.is_master;
}

-- The calls of `data_error` for the words in error, in order.
pub data_errors : ErrorSettings → ErrorState → List Fault → Option ErrorState
data_errors g st [] = some st
data_errors g st (f ∷ faults) = do
  (st', _) ← data_error (settings_for g f) f.addr f.good f.bad true st
  data_errors g st' faults
