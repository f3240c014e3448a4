-- ===== src/Renderer.antt =====
-- What `OpenXrApp` of quest_client/app/src/main/cpp/openxr_app.cpp does in a frame, with its swapchains
-- and the surfaces of the codecs, over the answers of the OpenXR runtime, of OpenGL and of the Java
-- side.
pub mod View
pub mod Shown
pub mod Frame
pub mod Rate
pub mod Swapchains
pub mod Rounds
pub mod Destroyed
pub mod CodecSurfaces
pub mod Withdrawn
pub mod Ends
