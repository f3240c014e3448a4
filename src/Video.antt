-- ===== src/Video.antt =====
-- The video path of the client: quest_client/app/src/main/cpp/video_decoder.{h,cpp}, and the state
-- that it shares with the renderer in quest_client/app/src/main/cpp/openxr_app.{h,cpp}.
pub mod Display
pub mod Raw
pub mod Color
pub mod Decoder
pub mod Router
