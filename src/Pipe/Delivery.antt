-- ===== src/Pipe/Delivery.antt =====
-- A writer and a reader that sleep and wake each other up deliver the whole message.
use hyu_ele3021_os.Base.{List}
use hyu_ele3021_os.Pipe.Transfer.{Transfer}
