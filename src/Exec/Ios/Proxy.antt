-- ===== src/Exec/Ios/Proxy.antt =====
-- samples/ios/www/cordova-js-src/exec.js: the proxy that the module exports, which hands a call on to
-- the `exec` that is registered at the moment of the call.
use node_apphost.Base.{
  ℕ, Bool, true, false, not, if◌then◌else◌, ◌&&◌, ◌≡◌, ◌≢◌, refl, arith, Bool-cases, ap, sym, ◌∙◌,
}
use node_apphost.Exec.Ios.{Device}

-- The objects that `require('cordova/exec')` can answer: `execProxy`, `iOSExec`, or that of another
-- bridge.
pub data ExecObject : Type 0 where
  exec_proxy ios_exec_object : ExecObject
  other_exec : ℕ → ExecObject

is_proxy : ExecObject → Bool
is_proxy exec_proxy = true
is_proxy _ = false

is_ios_exec : ExecObject → Bool
is_ios_exec ios_exec_object = true
is_ios_exec _ = false

-- The registered object, and which objects have the three functions `nativeFetchMessages`,
-- `nativeEvalAndFetch` and `nativeCallback`.
pub record ExecRegistry : Type 0 where
  pub cordova_exec_object : ExecObject
  pub fetches : ExecObject → Bool
  pub evals : ExecObject → Bool
  pub calls_back : ExecObject → Bool

-- `cordovaExec`.
unfoldable pub cordova_exec : ExecRegistry → ExecObject
unfolding is_proxy
cordova_exec r =
    let cexec = r.cordova_exec_object in
    if (r.fetches cexec && r.evals cexec && r.calls_back cexec) && not (is_proxy cexec)
    then cexec
    else ios_exec_object

-- `proxyChanged`.
unfoldable pub proxy_changed : ExecRegistry → Bool
unfolding cordova_exec is_proxy is_ios_exec
proxy_changed r = not (is_proxy (cordova_exec r)) && not (is_ios_exec (cordova_exec r))

-- The device as `handleBridgeChange` sees it.
unfoldable pub with_registry : ExecRegistry → Device → Device
unfolding proxy_changed
with_registry r d = record d { proxy_changed = proxy_changed r }

-- What the proxy has: the function itself and its three properties.
pub data ProxyCall : Type 0 where
  call_exec call_fetch call_eval call_callback : ProxyCall

-- A call of the proxy goes to the same function of the registered object.
unfoldable pub forward : ExecRegistry → ProxyCall → ExecObject × ProxyCall
unfolding cordova_exec
forward r call_exec = (cordova_exec r, call_exec)
forward r call_fetch = (cordova_exec r, call_fetch)
forward r call_eval = (cordova_exec r, call_eval)
forward r call_callback = (cordova_exec r, call_callback)

not_proxy : (r : ExecRegistry) → is_proxy (cordova_exec r) ≡ false
unfolding cordova_exec is_proxy
not_proxy r = ground (arith, Bool-cases (is_proxy r.cordova_exec_object))

handed_on : (r : ExecRegistry) (c : ProxyCall) → (forward r c).0 ≡ cordova_exec r
unfolding forward
handed_on r call_exec = refl
handed_on r call_fetch = refl
handed_on r call_eval = refl
handed_on r call_callback = refl

-- The proxy never hands a call on to itself, so that a call of it ends: it reaches the module's own
-- functions or another bridge.
pub forward-ends : (r : ExecRegistry) (c : ProxyCall) → (forward r c).0 ≢ exec_proxy
forward-ends r c h =
    let e : is_proxy exec_proxy ≡ false =
      ap is_proxy (sym h) ∙ ap is_proxy (handed_on r c) ∙ not_proxy r in
    absurd (unfold is_proxy in cc)

-- The queued commands are handed on exactly if the registered object is another bridge's, with all
-- three functions.
pub proxy_changed_iff :
    (r : ExecRegistry) (n : ℕ)
    → r.cordova_exec_object ≡ other_exec n
    → proxy_changed r
      ≡ (r.fetches (other_exec n) && r.evals (other_exec n) && r.calls_back (other_exec n))
unfolding proxy_changed cordova_exec is_proxy is_ios_exec
proxy_changed_iff r n h = ground arith
