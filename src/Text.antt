-- ===== src/Text.antt =====
-- C strings as lists of bytes, and what the program uses of <string.h> and <stdio.h>: `strcmp`,
-- the conversions `%s` and `%d` of `sscanf`, and `%d` of `sprintf`. A text holds no NUL byte.
mod Words
mod Decimal
mod Scan
mod Length
unfoldable pub use Words.*
unfoldable pub use Decimal.*
unfoldable pub use Scan.*
pub use Length.*
