-- ===== src/Answers.antt =====
-- What a page gets back from a call of a service, and what it shows to the user: the `try` and
-- `catch` of the handlers of web/src/pages/Admin, and `notification` of antd.
use linkflow_v.Prelude.{String, Option}

-- A call that throws, with the message if what was thrown is an `Error`.
pub data Answer (A : Type 0) : Type 0 where
  answered : A → Answer A
  failed : Option String → Answer A

-- A notification, with the key of its message.
pub data Notice : Type 0 where
  success : String → Notice
  error : String → Option String → Notice

pub data FormMode : Type 0 where
  create edit : FormMode
