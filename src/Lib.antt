-- ===== src/Lib.antt =====
-- A model of node-apphost: the build driver that clones, patches and builds Node or JXcore, and
-- the bridge by which a hybrid mobile application talks to the embedded engine.
--
-- Parts.
-- Base: JavaScript strings as lists of code units, plain objects as association lists, numerals.
-- Taskman (tools/taskman.js): `parse_args` is the loop over process.argv; `Taskman.Queue` is
--   `exec` and `runTasks`, a machine whose `turn` is one turn of the event loop. The effect of a
--   child process on the file system is an argument, `shell`.
-- Mobile (samples/android/assets/jxcore_cordova.js): the record `Mobile` holds the variables of
--   the module, `M` is state with exceptions, and each function of the file is one definition:
--   `Mobile.Events` for callbacks by name and `JXMobile.ping`, `Mobile.Methods` for the tables of
--   methods and `JXMobile.prototype.call`, `Mobile.Execute` for `JXMobile.executeJSON`. The
--   functions of the program, `require` and `JSON` are fields of `Engine`. `Mobile.Start` is the end
--   of the file, and the turns of the event loop that follow: `Op` is what can come in.
-- Ui (samples/android/assets/www/plugins/io.jxcore.node/www/jxcore.js): the page's half of that
--   bridge. The record `Page` holds its variables and, as values, the requests that it has made,
--   the timers that run, and the calls of the page's functions in their order.
--   `Ui.Device` is the detection of the device and the interval of its warning.
-- Glue (samples/android/src/io/jxcore/node/jxcore.java): what carries a request of the page to
--   `executeJSON`, as a script, and an answer back. Texts of values, the way of an array through
--   JSON, and the engine's reading of a script are fields of `Carrier`.
-- Sample (samples/android/assets/www/jxcore/app.js): the program that the sample application runs on
--   the device; its functions have numbers in the order of the file. `setTimeout` is a field of `Node`.
-- Exec (samples/android/assets/www/cordova-js-src/exec.js): the transport that the page's requests
--   go through on Android. `Exec.Payload` takes the messages of native code apart, `Exec.Bridge` has
--   the variables of the module, its operations, and the turns of the event loop. What native code
--   answers and what callbacks do are fields of `Native`. `Exec.Ios` is the same for iOS
--   (samples/ios/www/cordova-js-src/exec.js), where native code fetches the queued commands.
--   `Exec.Provider` (its folder android) is the choice of the native interface and the texts of `prompt`.
-- Assets (the same jxcore_cordova.js, `process.registerAssets`): `Assets.Tree` is the object of
--   virtual directories and the walk through it, `Assets.Paths` the loops over a path, `Assets.Fs`
--   the functions existsSync, readFileSync and readDirSync with the archive of stat objects,
--   `Assets.Register` the whole of the function with the folders that it makes on the disk.
-- Vfs (patch/node/fs_patch.js, patch/node/module_patch.js): the functions that the build appends to
--   Node's own `fs` and module loader. The native table of files is a field of `Node`, and `Vfs.Table`
--   (patch/node/node_vfile.cc) is the table that the engine puts there.
-- Wrapper (patch/node/node_wrapper.cc): the values that native code exchanges with JavaScript. A value is
--   its tag with what `data_` points to; `Wrapper.Calls` has calls in both directions. `none` is a failed
--   assertion or a read of a wrapper as what it is not. `Wrapper.Objects` has the properties of objects, kept in `Heap`.
--   `Wrapper.Natives` is the table of native methods, with the functions of JavaScript that stand for them;
--   V8 and the native code of the application are fields of `Vm`. `Wrapper.Getters` is what native code reads from a value.
--   `Wrapper.Copies` is the copy that `JS_SetBuffer` makes of its bytes, which ends before a byte 0.
-- Jni (samples/android/JNI_JXCORE/jni/jxcore.cpp): the map of values that wait for Java under a number, the
--   calls of the event callback with a text or with an array of Java, and the arguments of a call of
--   Java; `report_result` is the end of `callJSMethod` of jxcore.java. The texts that the engine makes of
--   objects and buffers are fields of `Texts`. `Jni.Getters` has the functions by which Java takes a value.
-- Launch (jxcore.java and jxcore.cpp again): `Initialize` with the text of the listing of the application's
--   archive, `prepareEngine`, and the native method that hands the listing on; `Launch.AssetFiles` has those that
--   look for a file and read it. `Launch.Reader` is
--   `JSON.parse` for such texts.
-- Jx (patch/jxcore/jxcore_wrapper.cc): what is registered before the start of JXcore and after it. `Jx`
--   holds the variables of the file and the calls of JXcore that it has made.
-- Build (build.js): the settings and the compile script, `Build.Patches` for the edits of the cloned
--   sources as a monad over a dictionary of files, `Build.Release` for the folder of the binaries,
--   `Build.Main` for the batch files and the queue that Taskman runs, `Build.Disk` for what
--   `createBatch`, `safeCreate` and `createRelease` do to the disk. `Host` is the machine.
-- RunTests (tests/runtests.js): the script that compiles and runs the native tests; `RunTests.Main` is
--   the file as a whole, with its queue.
-- Help: `print_help` of build.js and of tests/runtests.js.
-- Tests: runs of the models at concrete inputs.
--
-- The queue is stepped `2 * length + 1` times, which is enough, since a task takes at most two turns
-- of the event loop. `build_payload` has one more unit of fuel than its message is long, which is
-- enough for messages as native code writes them; a malformed one may loop for ever in the source, too,
-- and is `endless` in the model. All other loops are recursions on their data.
--
-- Not modelled: the C++ of patch/ but for the table of files, the values, objects and native methods of the native
-- interface and the start of JXcore, that of tests/, the Java and C++ of samples/android but for the parts
-- named above, and the copies of Cordova under samples/ but for the two files named exec.js and
-- the two in its folder android, which carry the page's requests; and what is printed besides the help and the titles of the tasks.
--
-- A string is a list of UTF-16 code units, so an index is a JavaScript index; a text of native code is a list of bytes. A plain object is a
-- list of its own keys in insertion order; where the code reads a key without `hasOwnProperty`, the
-- inherited keys are part of the model (`is_inherited`), but not a key `__proto__` or `hasOwnProperty` in the
-- listing of the package: a path with such a part is not modelled. Numbers that the bridge passes on are natural
-- numbers, since it computes with none of them. A thrown value is its `message`, its `stack`, and whether it is
-- an object on which a stack can be set. `JS_StoreValue` is modelled behind its assertion that the value is
-- neither undefined nor null, which its callers have tested.
pub mod Base
pub mod Taskman
pub mod Help
pub mod Mobile
pub mod Assets
pub mod Vfs
pub mod Build
pub mod RunTests
pub mod Ui
pub mod Glue
pub mod Sample
pub mod Exec
pub mod Wrapper
pub mod Jni
pub mod Jx
pub mod Launch
pub mod Tests
