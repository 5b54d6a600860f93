-- ===== src/Ui/Device.antt =====
-- jxcore.js of the page: which device it runs on, and the warning for an unknown one.
pub mod Warning
use node_apphost.Base.{
  ℕ, zero, suc, ◌+◌, ◌-◌, Str, js, str_eq, Bool, true, false, not, List, [], ◌∷◌, ◌++◌, Option,
  none, some, if◌then◌else◌, leb, ltb, ◌==◌, ◌&&◌, ◌||◌, length, take,
}

-- The flag `i` of a regular expression, for ASCII letters; no other character equals one of these.
fold_case : ℕ → ℕ
fold_case c = if leb b'a' c && leb c b'z' then c - 32 else c

same_start : Str → Str → Bool
unfolding fold_case
same_start [] s = true
same_start (c ∷ p) [] = false
same_start (c ∷ p) (d ∷ s) = (fold_case c == fold_case d) && same_start p s

-- `userAgent.match(/p/i)`: the first occurrence, as it is spelled there.
unfoldable pub match_text : Str → Str → Option Str
unfolding same_start
match_text p [] = if same_start p [] then some [] else none
match_text p (c ∷ s) =
    let later = match_text p s in
    if same_start p (c ∷ s) then some (take (length p) (c ∷ s)) else later

-- `match(...) == name`: null equals no text.
unfoldable pub is_matched : Str → Str → Bool
unfolding match_text
is_matched name agent = elim (match_text name agent) [ none ↦ false | some m ↦ str_eq m name ]

pub record Device : Type 0 where
  pub ios : Bool
  pub android : Bool

-- `jxcore_device` as it is first made.
unfoldable pub device_of : Str → Device
unfolding is_matched js
device_of agent = record {
  ios = is_matched (js "iPad") agent || is_matched (js "iPhone") agent;
  android = is_matched (js "Android") agent;
}

unfoldable pub is_unknown : Device → Bool
is_unknown d = not d.ios && not d.android

-- Where the message goes: to `log` or to `console.log`.
pub data Line : Type 0 where
  log_line console_line : Line

-- The interval of the warning: `counter`, whether it runs, and the messages.
pub record Warner : Type 0 where
  pub counter : ℕ
  pub running : Bool
  pub shown : List Line

-- What is defined when the interval's function runs: `log`, and `console`.
pub record Globals : Type 0 where
  pub has_log : Bool
  pub has_console : Bool

-- One run of the function.
give_up : Globals → Warner → Warner
give_up x w = record w {
  running = false;
  shown = if x.has_console then w.shown ++ console_line ∷ [] else w.shown;
}

count : Globals → Warner → Warner
unfolding give_up
count x w = if ltb 400 w.counter then give_up x w else w

warn : Globals → Warner → Warner
unfolding count
warn x w =
    if x.has_log
    then record w { running = false; shown = w.shown ++ log_line ∷ [] }
    else count x (record w { counter = w.counter + 1 })

unfoldable pub tick : Globals → Warner → Warner
unfolding warn
tick x w = if w.running then warn x w else w

unfoldable pub ticks : List Globals → Warner → Warner
unfolding tick
ticks [] w = w
ticks (x ∷ xs) w = ticks xs (tick x w)

-- The device that the page works with, and the interval if it has been started.
unfoldable pub detect : Str → Device × Option Warner
unfolding device_of is_unknown
detect agent =
    let d = device_of agent in
    if is_unknown d
    then (record d { android = true }, some (record { counter = 0; running = true; shown = [] }))
    else (d, none)
