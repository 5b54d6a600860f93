-- ===== src/Tests.antt =====
-- Each theorem at a concrete input, and runs of the models that can be followed in the sources.
mod TaskmanTests
mod MobileTests
mod BuildTests
mod RunTestsTests
mod AssetsTests
mod VfsTests
mod WrapperTests
mod JniTests
mod JxTests
mod NativesTests
mod LaunchTests
mod UiTests
mod ExecTests
mod IosTests
mod HelpTests
mod DiskTests
mod StartTests
mod SampleTests
