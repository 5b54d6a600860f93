-- ===== src/Tests/IosTests.antt =====
-- The transport on iOS, run.
use node_apphost.Base.{js, true, false, [], none, some, inl, refl}
use node_apphost.Exec.Ios.{IosBridge, Device, IosRequest, ios_exec, fail_safe_fires}
use node_apphost.Exec.Ios.Attended.{
  Attended, done, next, requested, fail_safe_ran, IosRuns-Attended,
}

abbrev device : Device
device = record {
  has_body = true;
  proxy_changed = false;
  to_base64 = λ s. s;
  stringify = λ c. c.service;
}

abbrev bridge : IosBridge
bridge = record {
  command_queue = [];
  in_eval = 0;
  fail_safe = none;
  live = [];
  next_timer = 1;
  pending_pokes = 0;
  pokes = 0;
  callbacks = [];
  callback_id = 4;
  forwarded = [];
  answers = [];
}

abbrev request : IosRequest
request = record {
  callbacks = record { success = some 1; fail = none };
  service = js "JXcore";
  action = js "isReady";
  args = [];
}

IosRuns-Attended_example : Attended (fail_safe_fires device 1 (ios_exec device request bridge))
unfolding Attended
IosRuns-Attended_example =
    IosRuns-Attended device bridge _
      (next _ _ _ (requested request bridge) (next _ _ _ (fail_safe_ran 1 _) (done _))) (inl refl)
