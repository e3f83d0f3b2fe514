-- ===== src/Cloud.antt =====
-- ycloud and postbox: IAM tokens of Yandex Cloud, and mail that is sent with them.
pub mod Iam
pub mod Postbox
mod Tests
