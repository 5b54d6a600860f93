-- ===== src/Exec.antt =====
-- samples/android/assets/www/cordova-js-src/exec.js: the transport under the page's half of the
-- bridge, with the messages that native code sends back.
pub mod Payload
pub mod Bridge
pub mod Wire
pub mod Queue
pub mod Batches
pub mod Requests
pub mod Ios
pub mod Provider
