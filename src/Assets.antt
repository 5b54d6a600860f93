-- ===== src/Assets.antt =====
-- samples/android/assets/jxcore_cordova.js, `process.registerAssets`: the files of the Android
-- package as a tree of plain objects, and the `fs` extension that looks paths up in it.
pub mod Tree
pub mod Paths
pub mod Fs
pub mod Register
